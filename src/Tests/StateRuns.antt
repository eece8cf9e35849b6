-- ===== src/Tests/StateRuns.antt =====
-- Runs of the accounts of state.go.
use verkle_trie.Prelude.{
  ◌==◌, ℕ, ◌+◌, ◌>>=◌, ◌≡◌, refl, some, [], ◌∷◌, ◌++◌, Bytes, arith, be_value, bytes_equal,
  tabulate, length, zeros,
}
use verkle_trie.Code.{split_code}
use verkle_trie.Commit
use verkle_trie.Embedding.{
  get_basic_data_key, get_code_hash_key, get_storage_key, get_code_chunk_key, get_trie_key,
  trie_stem,
}
use verkle_trie.Node
use verkle_trie.Trie
use verkle_trie.Trie.{Trie}
use verkle_trie.State.{
  Env, Update, apply_to_trie, set_balance, set_code, get_nonce, get_balance, get_code,
  get_code_size, get_code_hash,
}
use verkle_trie.State.View.{HasLengths, Writes}
use verkle_trie.State.Changes.{applied, apply_to_trie-Writes}
use verkle_trie.State.Accounts.{Keeps, empty-Views, set_balance-get_balance}
use verkle_trie.State.Codes.{set_code-get_code}
use verkle_trie.Tests.Toy.{toy, digits_be}

abbrev pub env : Env
env = record {
  ipa = toy;
  Amount = ℕ;
  bytes32 = λ n. digits_be 32 n [];
  new_from_bytes = be_value 0;
  keccak256 = λ code. digits_be 32 (1 + length code) [];
  empty_code_hash = digits_be 32 1 [];
  zero_amount = 0;
  new_amount = 0;
  equal_amounts = λ a b. a == b;
}

pub env-HasLengths : HasLengths env
env-HasLengths = record {
  length-keccak256 = λ code. refl;
  length-empty_code_hash = refl;
  length-bytes32 = λ a. refl;
}

abbrev pub account : Bytes
account = 5 ∷ zeros 19

abbrev nonce : Bytes
nonce = zeros 7 ++ 3 ∷ []

abbrev pub code : Bytes
code = 96 ∷ 1 ∷ 0 ∷ []

abbrev pub new_trie : Trie toy
new_trie = Trie.empty toy

abbrev pub new_update : Update env
new_update = record {
  created_accounts = account ∷ [];
  nonces = (account, nonce) ∷ [];
  balances = (account, 7) ∷ [];
  slots = (account, zeros 32, digits_be 32 9 []) ∷ [];
  codes = (account, code) ∷ [];
}

reads_nonce : (apply_to_trie env new_trie new_update >>= λ t. get_nonce env t account) ≡ some nonce
unfolding apply_to_trie get_nonce Trie.get Trie.set Node.get Node.set Commit.hash Commit.commit
    Commit.new_value Commit.new_value_from_little_endian_bytes get_basic_data_key get_code_hash_key
    get_storage_key get_code_chunk_key get_trie_key trie_stem split_code bytes_equal be_value
    tabulate
reads_nonce = refl

apply_to_trie-Writes_example :
    Writes env (apply_to_trie env new_trie new_update) (applied env (λ k. zeros 32) new_update)
apply_to_trie-Writes_example =
    apply_to_trie-Writes env env-HasLengths new_trie (λ k. zeros 32) new_update (empty-Views env)
      (refl, tt)

set_balance-get_balance_example :
    (t : Trie toy) × (set_balance env new_trie (account, 7) ≡ some t)
    × (get_balance env t account ≡ some 7)
    × (get_nonce env t account ≡ get_nonce env new_trie account)
    × (get_code_size env t account ≡ get_code_size env new_trie account)
    × Keeps env new_trie t (get_basic_data_key toy account)
unfolding be_value
set_balance-get_balance_example =
    set_balance-get_balance env env-HasLengths new_trie (λ k. zeros 32) account 7 (empty-Views env)
      refl

set_code-get_code_example :
    (t : Trie toy) × (set_code env new_trie (account, code) ≡ some t)
    × (get_code env t account ≡ some code)
    × (get_code_size env t account ≡ some 3)
    × (get_code_hash env t account ≡ some (env.keccak256 code))
    × (get_nonce env t account ≡ get_nonce env new_trie account)
    × (get_balance env t account ≡ get_balance env new_trie account)
set_code-get_code_example =
    set_code-get_code env account (λ k. zeros 32) code (omega arith)
      (λ i j hi hj e. (refl, omega arith)) env-HasLengths new_trie (empty-Views env)
