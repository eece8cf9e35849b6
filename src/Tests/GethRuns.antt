-- ===== src/Tests/GethRuns.antt =====
-- Runs of geth/state.go over the stand-in for go-ethereum.
use verkle_trie.Prelude.{
  ℕ, ◌^◌, ◌≡◌, refl, false, some, List, [], ◌∷◌, ◌++◌, Bytes, bytes_equal, zeros, subst,
}
use verkle_trie.Geth.{
  Result, ok, VerkleState, get_account, get_code, get_code_size, get_code_hash, get_nonce,
  get_balance, set_balance, set_code, set_storage, exists_account, ◌>>=◌,
}
use verkle_trie.Witness.{lookup, insert}
use verkle_trie.Witness.Extracts.{or_else}
use verkle_trie.Witness.Ranges.{IsMap}
use verkle_trie.Geth.Accounts.{>>=-eq-ok, ok-injective}
use verkle_trie.Geth.Sizes.{IsSized}
use verkle_trie.Geth.Methods.{get_code-set_code, set_balance-exists_account}
use verkle_trie.Geth.Source.{store_nodes, memory_set, memory_source, memory_node}
use verkle_trie.Geth.Persistent.{
  Target, Persistence, PersistentState, CallsMethods, apply, apply_persistent, apply-IsSized,
  apply_persistent_lem,
}
use verkle_trie.Tests.ToyGeth.{
  library, library-KeepsAccounts, new_state, new_verkle, empty_account, new_state-IsSized,
}

abbrev account : Bytes
account = 5 ∷ zeros 19

abbrev code : Bytes
code = 96 ∷ 1 ∷ []

abbrev stored : VerkleState library
stored = elim (set_code library new_state account code) [ ok s ↦ s | _ ↦ new_state ]

runs_set_code : set_code library new_state account code ≡ ok stored
unfolding set_code
runs_set_code = refl

get_code-set_code_example :
    (get_code library stored account ≡ some code)
    × (get_code_size library stored account ≡ 2)
    × (get_code_hash library stored account ≡ ok (some (library.keccak256 code)))
    × (get_nonce library stored account ≡ get_nonce library new_state account)
    × (get_balance library stored account ≡ get_balance library new_state account)
    × ((b : Bytes)
        → bytes_equal b account ≡ false
        → (get_account library stored b ≡ get_account library new_state b)
          × (get_code library stored b ≡ get_code library new_state b))
get_code-set_code_example =
    get_code-set_code library-KeepsAccounts new_state stored account code refl runs_set_code

-- 2 ^ 64, and an account that has it for a balance
abbrev huge : ℕ
huge = 2 ^ 64

abbrev rich : VerkleState library
rich = elim (set_balance library new_state account huge) [ ok s ↦ s | _ ↦ new_state ]

runs_set_balance : set_balance library new_state account huge ≡ ok rich
unfolding set_balance
runs_set_balance = refl

no_account : get_account library new_state account ≡ ok empty_account
unfolding get_account
no_account = refl

set_balance-exists_account_example :
    (exists_account library rich account ≡ ok false) × (get_balance library rich account ≡ ok huge)
set_balance-exists_account_example =
    set_balance-exists_account library-KeepsAccounts new_state rich account huge empty_account
      no_account refl refl refl runs_set_balance

abbrev value : Bytes
value = zeros 31 ++ 9 ∷ []

abbrev filled : VerkleState library
filled = elim (set_storage library new_state account (zeros 32) value) [ ok s ↦ s | _ ↦ new_state ]

runs_set_storage : set_storage library new_state account (zeros 32) value ≡ ok filled
unfolding set_storage
runs_set_storage = refl

-- an update that sets codes
abbrev apply_codes :
    {S : Type 0} → Target (Unit {0}) ℕ S → S → List (Bytes × Bytes) → Result (Unit {0}) S
apply_codes target s [] = ok s
apply_codes target s ((a, c) ∷ codes) = target.set_code s a c >>= λ s'. apply_codes target s' codes

abbrev nodes : List (Bytes × Bytes)
nodes = (1 ∷ [], code) ∷ (2 ∷ [], []) ∷ []

abbrev persistence : Persistence library (memory_source (Unit {0}))
persistence = record {
  Update = List (Bytes × Bytes);
  apply_to = apply_codes;
  commit = λ v. (zeros 32, nodes);
  new_verkle_trie = λ root source. ok new_verkle;
  join = λ e errs. e;
}

persistence-CallsMethods : CallsMethods persistence
persistence-CallsMethods S target P closed s s' [] w e = subst P (ok-injective s s' e) w
persistence-CallsMethods S target P closed s s' ((a, c) ∷ codes) w e =
    let (s1, run, e') = >>=-eq-ok (target.set_code s a c) _ e in
    persistence-CallsMethods S target P closed s1 s' codes (closed.set_code s s1 a c w run) e'

abbrev update : List (Bytes × Bytes)
update = (account, code) ∷ []

runs_apply : apply library (memory_source (Unit {0})) persistence new_state update ≡ ok stored
unfolding apply set_code
runs_apply = refl

apply-IsSized_example : IsSized library-KeepsAccounts stored
apply-IsSized_example =
    apply-IsSized library-KeepsAccounts persistence persistence-CallsMethods new_state stored update
      new_state-IsSized runs_apply

abbrev persistent : PersistentState library (memory_source (Unit {0})) persistence
persistent = record { state = new_state; source = record { nodes = [] } }

abbrev persisted : PersistentState library (memory_source (Unit {0})) persistence
persisted = record {
  state = record { verkle = new_verkle; codes = update };
  source = record { nodes = nodes };
}

runs_apply_persistent :
    apply_persistent library (memory_source (Unit {0})) persistence persistent update ≡ ok persisted
unfolding apply_persistent set_code store_nodes memory_set insert bytes_equal
runs_apply_persistent = refl

nodes-IsMap : IsMap nodes
unfolding IsMap lookup bytes_equal
nodes-IsMap = (refl, (refl, tt))

apply_persistent_lem_example :
    (s : VerkleState library) × (apply library
        (memory_source (Unit {0}))
        persistence
        new_state
        update
      ≡ ok s)
    × (persistence.new_verkle_trie (zeros 32) persisted.source ≡ ok new_verkle)
    × (persisted.state.codes ≡ s.codes)
    × ((path : Bytes)
        → memory_node persisted.source path
          ≡ or_else (lookup nodes path) (memory_node persistent.source path))
apply_persistent_lem_example =
    apply_persistent_lem persistence (λ v. nodes-IsMap) persistent persisted update
      runs_apply_persistent
