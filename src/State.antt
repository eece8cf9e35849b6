-- ===== src/State.antt =====
-- memory/state.go: the accounts of `State`, their getters and the loops of `Apply`.
pub mod Patch
pub mod View
pub mod Changes
pub mod Accounts
pub mod Codes
pub mod Slots
pub mod Proofs
pub mod Bytes32
pub mod Reached
use verkle_trie.Prelude.{
  ℕ, zero, suc, ◌+◌, ◌-◌, ◌/◌, Bool, true, false, not, ◌==◌, Option, none, some, ◌>>=◌, List, [],
  ◌∷◌, ◌++◌, Bytes, bytes_equal, be_value, be32, zeros, length, take, drop, slice, copy,
  if◌then◌else◌,
}
use verkle_trie.Code.{split_code, merge}
use verkle_trie.Commit.{Ipa}
use verkle_trie.Embedding.{
  get_basic_data_key, get_code_hash_key, get_code_chunk_key, get_storage_key,
}
use verkle_trie.Trie
use verkle_trie.Trie.{Trie}

-- What the state calls of other packages: amount.Amount with `Bytes32` and `NewFromBytes`,
-- common.Keccak256 and types.EmptyCodeHash, beside go-ipa.
pub record Env : Type 1 where
  pub ipa : Ipa
  pub Amount : Type 0
  pub bytes32 : Amount → Bytes
  pub new_from_bytes : Bytes → Amount
  pub keccak256 : Bytes → Bytes
  pub empty_code_hash : Bytes
  -- the zero value, `New` and `==`
  pub zero_amount : Amount
  pub new_amount : Amount
  pub equal_amounts : Amount → Amount → Bool

-- The fields of common.Update that `Apply` reads: accounts with a nonce, a balance, a slot (a key and
-- a value) or a code.
pub record Update (env : Env) : Type 0 where
  pub created_accounts : List Bytes
  pub nonces : List (Bytes × Bytes)
  pub balances : List (Bytes × env.Amount)
  pub slots : List (Bytes × Bytes × Bytes)
  pub codes : List (Bytes × Bytes)

-- `copy(value[lo:hi], src)`
abbrev pub patch : ℕ → ℕ → Bytes → Bytes → Bytes
patch lo hi src value = take lo value ++ (copy (slice lo hi value) src ++ drop hi value)

module _ (env : Env) where
  -- `s.trie.Get(getBasicDataKey(address))`
  abbrev pub basic_data : Trie env.ipa → Bytes → Option Bytes
  basic_data t address = Trie.get env.ipa t (get_basic_data_key env.ipa address)

  unfoldable pub exists_account : Trie env.ipa → Bytes → Option Bool
  exists_account t address = do
    value ← basic_data t address
    some (not (bytes_equal (slice 8 32 value) (zeros 24)))

  unfoldable pub get_balance : Trie env.ipa → Bytes → Option env.Amount
  get_balance t address = do
    value ← basic_data t address
    some (env.new_from_bytes (slice 16 32 value))

  unfoldable pub get_nonce : Trie env.ipa → Bytes → Option Bytes
  get_nonce t address = do value ← basic_data t address; some (slice 8 16 value)

  unfoldable pub get_storage : Trie env.ipa → Bytes → Bytes → Option Bytes
  get_storage t address key = Trie.get env.ipa t (get_storage_key env.ipa address key)

  unfoldable pub get_code_size : Trie env.ipa → Bytes → Option ℕ
  get_code_size t address = do value ← basic_data t address; some (be_value 0 (slice 4 8 value))

  -- the loop of `GetCode`, from chunk `i` on
  unfoldable pub read_chunks : ℕ → Trie env.ipa → Bytes → ℕ → Option (List Bytes)
  read_chunks zero t address i = some []
  read_chunks (suc rounds) t address i = do
    value ← Trie.get env.ipa t (get_code_chunk_key env.ipa address i)
    chunks ← read_chunks rounds t address (i + 1)
    some (value ∷ chunks)

  unfoldable pub get_code : Trie env.ipa → Bytes → Option Bytes
  unfolding get_code_size read_chunks
  get_code t address = do
    size ← get_code_size t address
    chunks ← read_chunks (size / 31 + 1) t address 0
    some (merge chunks size)

  unfoldable pub get_code_hash : Trie env.ipa → Bytes → Option Bytes
  get_code_hash t address = Trie.get env.ipa t (get_code_hash_key env.ipa address)

  -- One round of each loop of `Apply`.
  unfoldable pub create_account : Trie env.ipa → Bytes → Option (Trie env.ipa)
  create_account t address = do
    value ← basic_data t address
    if bytes_equal (slice 4 32 value) (zeros 28)
        then (do
          t' ← Trie.set env.ipa t (get_basic_data_key env.ipa address) value
          Trie.set env.ipa t' (get_code_hash_key env.ipa address) env.empty_code_hash)
        else some t

  unfoldable pub set_nonce : Trie env.ipa → Bytes × Bytes → Option (Trie env.ipa)
  set_nonce t (account, nonce) = do
    value ← basic_data t account
    Trie.set env.ipa t (get_basic_data_key env.ipa account) (patch 8 16 nonce value)

  unfoldable pub set_balance : Trie env.ipa → Bytes × env.Amount → Option (Trie env.ipa)
  set_balance t (account, balance) = do
    value ← basic_data t account
    Trie.set env.ipa t (get_basic_data_key env.ipa account)
        (patch 16 32 (drop 16 (env.bytes32 balance)) value)

  unfoldable pub set_slot : Trie env.ipa → Bytes × Bytes × Bytes → Option (Trie env.ipa)
  set_slot t (account, key, value) = Trie.set env.ipa t (get_storage_key env.ipa account key) value

  -- `for i, chunk := range chunks`, from chunk `i` on
  unfoldable pub set_chunks : List Bytes → Trie env.ipa → Bytes → ℕ → Option (Trie env.ipa)
  set_chunks [] t account i = some t
  set_chunks (chunk ∷ chunks) t account i = do
    t' ← Trie.set env.ipa t (get_code_chunk_key env.ipa account i) chunk
    set_chunks chunks t' account (i + 1)

  unfoldable pub set_code : Trie env.ipa → Bytes × Bytes → Option (Trie env.ipa)
  unfolding set_chunks
  set_code t (account, code) = do
    value ← basic_data t account
    t1 ←
        Trie.set env.ipa t (get_basic_data_key env.ipa account)
          (patch 4 8 (be32 (length code)) value)
    t2 ← Trie.set env.ipa t1 (get_code_hash_key env.ipa account) (env.keccak256 code)
    set_chunks (split_code code) t2 account 0

  -- A loop over the entries of an update.
  unfoldable pub each :
      {A : Type 0}
      → (Trie env.ipa → A → Option (Trie env.ipa))
      → Trie env.ipa
      → List A
      → Option (Trie env.ipa)
  each step t [] = some t
  each step t (a ∷ as') = do t' ← step t a; each step t' as'

  -- the loops of `Apply`, in its order
  unfoldable pub apply_to_trie : Trie env.ipa → Update env → Option (Trie env.ipa)
  unfolding each create_account set_nonce set_balance set_slot set_code
  apply_to_trie t update = do
    t1 ← each create_account t update.created_accounts
    t2 ← each set_nonce t1 update.nonces
    t3 ← each set_balance t2 update.balances
    t4 ← each set_slot t3 update.slots
    each set_code t4 update.codes
