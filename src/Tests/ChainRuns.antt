-- ===== src/Tests/ChainRuns.antt =====
-- Runs of several blocks on the state of state.go.
use verkle_trie.Prelude.{
  ℕ, ◌<◌, ◌≡◌, ◌≢◌, refl, Bool, true, false, some, List, [], ◌∷◌, ◌++◌, Bytes, arith, ◌∙◌, sym, All,
  zeros, take, bytes_equal, be_value,
}
use verkle_trie.Archive.{Snapshot, get_block}
use verkle_trie.Archive.Window.{is_recent}
use verkle_trie.Code.Chunks.{length-split_code}
use verkle_trie.Embedding.{code_chunk_place}
use verkle_trie.Embedding.Layout.{Field, IsField, place}
use verkle_trie.State.{Update, get_storage}
use verkle_trie.State.Proofs.{get_hash}
use verkle_trie.State.Slots.{slot_value, IsFree, IsApart}
use verkle_trie.Memory.{State, new_state, has_empty_storage, get_archive_state, no_block}
use verkle_trie.Memory.Chain.{
  apply_all, all_slots, HasValues, IsApartFrom, apply_all-get_storage, apply_all-has_empty_storage,
}
use verkle_trie.Memory.Window.{numbered, apply_all-get_block}
use verkle_trie.Tests.Toy.{digits_be}
use verkle_trie.Tests.StateRuns.{env, env-HasLengths, account, code, new_update}

abbrev slot : Bytes
slot = zeros 31 ++ 5 ∷ []

slot-IsField : IsField (Field.storage slot)
slot-IsField = omega arith

slot_index : (place (Field.storage slot)).tree_index ≡ 0
unfolding place be_value
slot_index = refl

-- the fields of the account that stand at tree index 0, as the slot does
at_zero : (field : Field) → (place field).tree_index ≡ 0 → IsFree env account slot account field
at_zero field h e = (refl, slot_index ∙ sym h)

data_at_zero : (place Field.basic_data).tree_index ≡ 0
unfolding place
data_at_zero = refl

hash_at_zero : (place Field.code_hash).tree_index ≡ 0
unfolding place
hash_at_zero = refl

chunk_at_zero : (n : ℕ) → n < 128 → (place (Field.code_chunk n)).tree_index ≡ 0
unfolding place code_chunk_place
chunk_at_zero n h = omega arith

first_slot_at_zero : (place (Field.storage (zeros 32))).tree_index ≡ 0
unfolding place be_value
first_slot_at_zero = refl

new_update-IsApart : IsApart env account slot new_update
new_update-IsApart =
    let data_free = at_zero Field.basic_data data_at_zero in
    let hash_free = at_zero Field.code_hash hash_at_zero in
    record {
      created = ((data_free, hash_free), tt);
      nonces = (data_free, tt);
      balances = (data_free, tt);
      slots = ((omega arith, at_zero (Field.storage (zeros 32)) first_slot_at_zero), tt);
      codes = (
        (
          omega arith,
          data_free,
          hash_free,
          λ n h.
              at_zero (Field.code_chunk n)
                (chunk_at_zero n (omega (arith, length-split_code code))),
        ),
        tt,
      );
    }

-- a later block that writes the slot
abbrev slot_update : Update env
slot_update = record {
  created_accounts = [];
  nonces = [];
  balances = [];
  slots = (account, slot, digits_be 32 6 []) ∷ [];
  codes = [];
}

slot_update-IsApart : IsApart env account slot slot_update
slot_update-IsApart = record {
  created = tt;
  nonces = tt;
  balances = tt;
  slots = ((slot-IsField, at_zero (Field.storage slot) slot_index), tt);
  codes = tt;
}

abbrev blocks : List (ℕ × Update env)
blocks = (4, new_update) ∷ (9, slot_update) ∷ []

blocks-HasValues : All (HasValues env) blocks
blocks-HasValues = ((refl, tt), ((refl, tt), tt))

last_value : slot_value (zeros 32) (all_slots env blocks) account slot ≡ digits_be 32 6 []
unfolding slot_value all_slots bytes_equal
last_value = refl

apply_all-get_storage_example :
    (s : State env) × (apply_all env (new_state env) blocks ≡ some s)
    × ((a k : Bytes)
        → IsField (Field.storage k)
        → IsApartFrom env a k blocks
        → get_storage env s.trie a k ≡ some (slot_value (zeros 32) (all_slots env blocks) a k))
apply_all-get_storage_example = apply_all-get_storage env env-HasLengths blocks blocks-HasValues

reads_slot :
    get_storage env apply_all-get_storage_example.0.trie account slot
    ≡ some (slot_value (zeros 32) (all_slots env blocks) account slot)
reads_slot =
    apply_all-get_storage_example.2 account slot slot-IsField
      (new_update-IsApart, (slot_update-IsApart, tt))

apply_all-has_empty_storage_example :
    (s : State env) × (b : Bool) × (apply_all env (new_state env) blocks ≡ some s)
    × (has_empty_storage env s account ≡ some b)
    × (b ≡ true
        → (k : Bytes) → IsField (Field.storage k)
        → IsApartFrom env account k blocks
        → get_storage env s.trie account k ≡ some (zeros 32))
    × (b ≡ false
        → (k value : Bytes) × (get_storage env s.trie account k ≡ some value) × (value ≢ zeros 32))
apply_all-has_empty_storage_example =
    apply_all-has_empty_storage env env-HasLengths blocks account blocks-HasValues

abbrev snap : ℕ → Snapshot
snap n = record { commitment = n ∷ []; bytes = n ∷ n ∷ [] }

abbrev updates : List (Update env)
updates = new_update ∷ slot_update ∷ []

apply_all-get_block_example :
    (s : State env) × (apply_all env (new_state env) (numbered env 1 updates) ≡ some s)
    × ((j : ℕ)
        → is_recent 1000 2 j ≡ true
        → (snapshot : Snapshot) × (sj : State env) × (get_block s.archive j ≡ some snapshot)
          × (apply_all env (new_state env) (numbered env 1 (take j updates)) ≡ some sj)
          × (snapshot.commitment ≡ (get_hash env sj.trie).0))
    × ((j : ℕ) → is_recent 1000 2 j ≡ false → get_archive_state env s j ≡ some (some no_block, s))
apply_all-get_block_example =
    apply_all-get_block env env-HasLengths updates ((refl, tt), ((refl, tt), tt))
