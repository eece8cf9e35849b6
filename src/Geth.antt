-- ===== src/Geth.antt =====
-- geth/state.go: the adapter to the Verkle trie of go-ethereum.
pub mod Source
pub mod Accounts
pub mod Sizes
pub mod Methods
pub mod Persistent
use verkle_trie.Witness.{Storage, lookup, insert}
use verkle_trie.Prelude.{
  ℕ, ◌+◌, ◌-◌, ◌%◌, ◌^◌, Bool, true, false, not, ◌||◌, ◌==◌, Option, none, some, List, [], ◌∷◌,
  ◌++◌, Bytes, bytes_equal, be_value, drop, take, copy, length, zeros, ltb, if◌then◌else◌,
}

-- A Go result: a value, an error of a library call, or an error that this package returns itself.
pub data Result (Failure : Type 0) (A : Type 0) : Type 0 where
  ok : A → Result Failure A
  failed : Failure → Result Failure A
  not_supported : Result Failure A

infixl 5 ◌>>=◌
abbrev pub ◌>>=◌ :
    {Failure A B : Type 0} → Result Failure A → (A → Result Failure B) → Result Failure B
ok a >>= f = f a
failed e >>= f = failed e
not_supported >>= f = not_supported

-- types.StateAccount, the fields that the adapter reads; a balance is a 256-bit number.
pub record StateAccount : Type 0 where
  pub nonce : ℕ
  pub balance : ℕ
  pub code_hash : Bytes

-- What the adapter calls: trie.VerkleTrie and types.NewEmptyStateAccount of go-ethereum,
-- common.Keccak256, and the conversions of common.Nonce and amount.Amount.
pub record Library : Type 1 where
  pub Failure : Type 0
  pub Verkle : Type 0
  pub get_account : Verkle → Bytes → Result Failure (Option StateAccount)
  pub update_account : Verkle → Bytes → StateAccount → ℕ → Result Failure Verkle
  pub get_storage : Verkle → Bytes → Bytes → Result Failure Bytes
  pub update_storage : Verkle → Bytes → Bytes → Bytes → Result Failure Verkle
  pub update_contract_code : Verkle → Bytes → Bytes → Bytes → Result Failure Verkle
  pub hash : Verkle → Bytes
  pub new_empty_state_account : StateAccount
  pub keccak256 : Bytes → Bytes
  pub to_uint64 : Bytes → ℕ
  pub to_nonce : ℕ → Bytes
  pub Amount : Type 0
  pub uint256 : Amount → ℕ
  pub new_from_uint256 : ℕ → Amount

module _ (lib : Library) where
  -- `verkleState`
  pub record VerkleState : Type 0 where
    pub verkle : lib.Verkle
    -- `map[common.Address][]byte`
    pub codes : Storage

  -- `newState`, from `NewVerkleTrie` over the source at hand: the trie of the zero hash, and no codes
  unfoldable pub new_verkle_state :
      (Bytes → Result lib.Failure lib.Verkle) → Result lib.Failure VerkleState
  new_verkle_state new_verkle_trie = do
    v ← new_verkle_trie (zeros 32)
    ok (record { verkle = v; codes = [] })

  unfoldable pub get_code : VerkleState → Bytes → Option Bytes
  get_code s address = lookup s.codes address

  unfoldable pub code_size : Option Bytes → ℕ
  code_size none = 0
  code_size (some code) = length code

  unfoldable pub get_code_size : VerkleState → Bytes → ℕ
  unfolding code_size get_code
  get_code_size s address = code_size (get_code s address)

  abbrev pub or_empty : Option StateAccount → StateAccount
  or_empty none = lib.new_empty_state_account
  or_empty (some account) = account

  -- `getAccount`
  unfoldable pub get_account : VerkleState → Bytes → Result lib.Failure StateAccount
  get_account s address = lib.get_account s.verkle address >>= λ account. ok (or_empty account)

  -- `s.verkle.UpdateAccount(...)`
  abbrev pub update_account :
      VerkleState → Bytes → StateAccount → ℕ → Result lib.Failure VerkleState
  update_account s address account size =
      lib.update_account s.verkle address account size >>= λ v. ok (record s { verkle = v })

  unfoldable pub delete_account : VerkleState → Bytes → Result lib.Failure VerkleState
  delete_account s address = not_supported

  abbrev pub create_from :
      VerkleState → Bytes → Option StateAccount → Result lib.Failure VerkleState
  create_from s address (some account) = ok s
  create_from s address none = update_account s address lib.new_empty_state_account 0

  unfoldable pub create_account : VerkleState → Bytes → Result lib.Failure VerkleState
  create_account s address = lib.get_account s.verkle address >>= create_from s address

  unfoldable pub set_nonce : VerkleState → Bytes → Bytes → Result lib.Failure VerkleState
  unfolding get_account get_code_size
  set_nonce s address nonce = do
    account ← get_account s address
    update_account s address (record account { nonce = lib.to_uint64 nonce })
        (get_code_size s address)

  unfoldable pub set_balance : VerkleState → Bytes → lib.Amount → Result lib.Failure VerkleState
  unfolding get_account get_code_size
  set_balance s address balance = do
    account ← get_account s address
    update_account s address (record account { balance = lib.uint256 balance })
        (get_code_size s address)

  unfoldable pub set_storage : VerkleState → Bytes → Bytes → Bytes → Result lib.Failure VerkleState
  set_storage s address key value = do
    v ← lib.update_storage s.verkle address key value
    ok (record s { verkle = v })

  unfoldable pub set_code : VerkleState → Bytes → Bytes → Result lib.Failure VerkleState
  unfolding get_account
  set_code s address code = do
    account ← get_account s address
    let code_hash = lib.keccak256 code
    v ← lib.update_account s.verkle address (record account { code_hash = code_hash }) (length code)
    v' ← lib.update_contract_code v address code_hash code
    ok (record { verkle = v'; codes = insert s.codes address code })

  -- `account.Balance.Uint64()` is the low word of the balance
  unfoldable pub exists_account : VerkleState → Bytes → Result lib.Failure Bool
  unfolding get_account
  exists_account s address = do
    account ← get_account s address
    ok (not (account.nonce == 0) || not (account.balance % 2 ^ 64 == 0))

  unfoldable pub get_nonce : VerkleState → Bytes → Result lib.Failure Bytes
  unfolding get_account
  get_nonce s address = do account ← get_account s address; ok (lib.to_nonce account.nonce)

  unfoldable pub get_balance : VerkleState → Bytes → Result lib.Failure lib.Amount
  unfolding get_account
  get_balance s address = do
    account ← get_account s address
    ok (lib.new_from_uint256 account.balance)

  -- `common.Hash(bytes)`; `none` is the panic for less than 32 bytes
  unfoldable pub to_hash : Bytes → Option Bytes
  to_hash bytes = if ltb (length bytes) 32 then none else some (take 32 bytes)

  unfoldable pub get_code_hash : VerkleState → Bytes → Result lib.Failure (Option Bytes)
  unfolding get_account to_hash
  get_code_hash s address = do account ← get_account s address; ok (to_hash account.code_hash)

  -- `copy(commonValue[32-len(value):], value)`; `none` is the panic for more than 32 bytes
  unfoldable pub right_align : Bytes → Option Bytes
  right_align value =
      if ltb 32 (length value)
      then none
      else some
          (take (32 - length value) (zeros 32) ++ copy (drop (32 - length value) (zeros 32)) value)

  unfoldable pub get_storage : VerkleState → Bytes → Bytes → Result lib.Failure (Option Bytes)
  unfolding right_align
  get_storage s address key = do
    value ← lib.get_storage s.verkle address key
    ok (right_align value)

  unfoldable pub has_empty_storage : VerkleState → Bytes → Result lib.Failure Bool
  has_empty_storage s address = not_supported

  unfoldable pub get_hash : VerkleState → Bytes
  get_hash s = lib.hash s.verkle
