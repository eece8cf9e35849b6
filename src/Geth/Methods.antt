-- ===== src/Geth/Methods.antt =====
-- geth/state.go: codes, accounts that exist, and storage values.
use verkle_trie.Prelude.{
  ℕ, zero, suc, ◌+◌, ◌-◌, ◌%◌, ◌^◌, ◌≤◌, ◌≡◌, refl, ◌∙◌, sym, ap, false, some, ◌∷◌, ◌++◌, Bytes,
  bytes_equal, bytes_equal_refl, bytes_equal_comm, length, zeros, take, drop, arith, if◌then◌else◌,
  le→ltb, length-append, length-replicate, take_all, copy_full, length-drop,
}
use verkle_trie.Witness.{lookup, insert}
use verkle_trie.Witness.Extracts.{lookup-insert}
use verkle_trie.Geth.{
  ok, StateAccount, Library, VerkleState, get_account, get_code, get_code_size, set_balance,
  set_storage, set_code, exists_account, get_nonce, get_balance, get_code_hash, get_storage,
  right_align,
}
use verkle_trie.Geth.Accounts.{
  >>=-eq-ok, ok-injective, KeepsAccounts, set_balance_lem, set_code-updates,
}
use verkle_trie.Geth.Sizes.{size-insert}

module _ {lib : Library} (keeps : KeepsAccounts lib) where
  get_code-insert :
      (s s' : VerkleState lib) (address code b : Bytes)
      → s'.codes ≡ insert s.codes address code
      → get_code lib s' b ≡ (if bytes_equal address b then some code else get_code lib s b)
  unfolding get_code
  get_code-insert s s' address code b e =
      ap (λ codes. lookup codes b) e ∙ lookup-insert s.codes address code b

  -- Over a library that keeps accounts and whose hash has 32 bytes: a code that `SetCode` stores with
  -- no error is what `GetCode` returns, with its size and its hash. Nonce and balance are as before,
  -- and so are accounts and codes of other addresses.
  pub get_code-set_code :
      (s s' : VerkleState lib) (address code : Bytes)
      → length (lib.keccak256 code) ≡ 32
      → set_code lib s address code ≡ ok s'
      → (get_code lib s' address ≡ some code)
        × (get_code_size lib s' address ≡ length code)
        × (get_code_hash lib s' address ≡ ok (some (lib.keccak256 code)))
        × (get_nonce lib s' address ≡ get_nonce lib s address)
        × (get_balance lib s' address ≡ get_balance lib s address)
        × ((b : Bytes)
            → bytes_equal b address ≡ false
            → (get_account lib s' b ≡ get_account lib s b) × (get_code lib s' b ≡ get_code lib s b))
  unfolding get_code_hash get_nonce get_balance
  get_code-set_code s s' address code len e =
      let (account, found, has, _, codes, _) = set_code-updates keeps s s' address code e in
      let self = bytes_equal_refl address in
      let now = rw self at (has address) in
      let long = le→ltb (length (lib.keccak256 code)) 32 (omega arith) in
      (
        rw self at (get_code-insert s s' address code address codes),
        rw self at (size-insert keeps s s' address code address codes),
        rw (now, long, take_all 32 (lib.keccak256 code) (omega arith)) refl,
        rw (now, found) refl,
        rw (now, found) refl,
        λ b other. (
          rw other at (has b),
          rw (bytes_equal_comm address b, other) at (get_code-insert s s' address code b codes),
        ),
      )

  -- Over a library that keeps accounts, an account with nonce 0 does not exist after its balance is
  -- set with no error to a multiple of 2 ^ 64, though `GetBalance` returns that balance, where an
  -- amount is restored from its number.
  pub set_balance-exists_account :
      (s s' : VerkleState lib) (address : Bytes) (balance : lib.Amount) (account : StateAccount)
      → get_account lib s address ≡ ok account
      → account.nonce ≡ 0
      → lib.uint256 balance % 2 ^ 64 ≡ 0
      → lib.new_from_uint256 (lib.uint256 balance) ≡ balance
      → set_balance lib s address balance ≡ ok s'
      → (exists_account lib s' address ≡ ok false) × (get_balance lib s' address ≡ ok balance)
  unfolding exists_account get_balance
  set_balance-exists_account s s' address balance account found zero_nonce low restores e =
      let (account', found', has, _) = set_balance_lem keeps s s' address balance e in
      let now = rw (bytes_equal_refl address) at (has address) in
      let same : account' ≡ account = ok-injective _ _ (sym found' ∙ found) in
      let nonce : account'.nonce ≡ 0 = ap (λ (a : StateAccount). a.nonce) same ∙ zero_nonce in
      (rw (now, nonce, low) refl, rw (now, restores) refl)

-- What go-ethereum's trie promises of storage: a value that is written is read back, where leading
-- zero bytes may be trimmed.
pub record KeepsStorage (lib : Library) : Type 0 where
  pub get_storage-update_storage :
      (v v' : lib.Verkle) (a key value : Bytes)
      → lib.update_storage v a key value ≡ ok v'
      → (n : ℕ) × (bytes : Bytes) × (lib.get_storage v' a key ≡ ok bytes)
        × (value ≡ zeros n ++ bytes)

take-zeros : (m n : ℕ) → m ≤ n → take m (zeros n) ≡ zeros m
take-zeros zero n h = refl
take-zeros (suc m) zero h = absurd (omega arith)
take-zeros (suc m) (suc n) h = ap (λ t. 0 ∷ t) (take-zeros m n (omega arith))

-- trimmed zeros are put back
right_align_lem :
    (lib : Library) (n : ℕ) (bytes value : Bytes)
    → length value ≡ 32
    → value ≡ zeros n ++ bytes
    → right_align lib bytes ≡ some value
unfolding right_align
right_align_lem lib n bytes value len e =
    let total : n + length bytes ≡ 32 =
      omega (arith, ap length e, length-append (zeros n) bytes, length-replicate {A = ℕ} n 0) in
    let short = le→ltb 32 (length bytes) (omega arith) in
    let gap : 32 - length bytes ≡ n = omega arith in
    let rest : length bytes ≡ length (drop n (zeros 32)) =
      omega (arith, length-drop n (zeros 32)) in
    rw (short, gap, take-zeros n 32 (omega arith), copy_full (drop n (zeros 32)) bytes rest)
      (ap some (sym e))

-- Over a library that keeps storage, a 32-byte value that `SetStorage` writes with no error is what
-- `GetStorage` returns, also where the trie trims leading zeros.
pub set_storage-get_storage :
    {lib : Library}
    → KeepsStorage lib
    → (s s' : VerkleState lib) (address key value : Bytes) → length value ≡ 32
    → set_storage lib s address key value ≡ ok s'
    → get_storage lib s' address key ≡ ok (some value)
unfolding set_storage get_storage
set_storage-get_storage {lib} keeps s s' address key value len e =
    let (v', run, e') = >>=-eq-ok (lib.update_storage s.verkle address key value) _ e in
    let (n, bytes, read, same) =
      keeps.get_storage-update_storage s.verkle v' address key value run in
    let verkle : s'.verkle ≡ v' =
      ap (λ (x : VerkleState lib). x.verkle) (sym (ok-injective _ _ e')) in
    rw (verkle, read) (ap ok (right_align_lem lib n bytes value len same))
