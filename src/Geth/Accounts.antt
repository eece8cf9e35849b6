-- ===== src/Geth/Accounts.antt =====
-- geth/state.go: what the getters return after a setter, for a library that keeps what it is given.
use verkle_trie.Prelude.{
  ℕ, ◌≡◌, refl, ◌∙◌, sym, ap, some, Bytes, bytes_equal, length, Bool-cases, inl, inr, if◌then◌else◌,
}
use verkle_trie.Witness.{Storage, insert}
use verkle_trie.Geth.{
  Result, ok, failed, not_supported, ◌>>=◌, StateAccount, Library, VerkleState, or_empty,
  get_account, get_code_size, set_nonce, set_balance, set_code,
}

-- A chain that succeeds has a first call that succeeds.
pub >>=-eq-ok :
    {Failure Found Last : Type 0} {last : Last} (call : Result Failure Found)
    (next : Found → Result Failure Last)
    → (call >>= next) ≡ ok last
    → (found : Found) × (call ≡ ok found) × (next found ≡ ok last)
>>=-eq-ok not_supported next e = cc
>>=-eq-ok (failed failure) next e = cc
>>=-eq-ok (ok found) next e = (found, refl, e)

pub ok-injective : {Failure A : Type 0} (a b : A) → ◌≡◌ {A = Result Failure A} (ok a) (ok b) → a ≡ b
ok-injective a b h = cc

-- What go-ethereum's trie promises: an account, and the code size beside it, is what was written last,
-- and writes of storage and of code chunks leave both.
pub record KeepsAccounts (lib : Library) : Type 0 where
  pub size_of : lib.Verkle → Bytes → ℕ
  pub get_account-update_account :
      (v v' : lib.Verkle) (a : Bytes) (account : StateAccount) (size : ℕ)
      → lib.update_account v a account size ≡ ok v'
      → (b : Bytes)
      → lib.get_account v' b ≡ (if bytes_equal b a then ok (some account) else lib.get_account v b)
  pub size_of-update_account :
      (v v' : lib.Verkle) (a : Bytes) (account : StateAccount) (size : ℕ)
      → lib.update_account v a account size ≡ ok v'
      → (b : Bytes) → size_of v' b ≡ (if bytes_equal b a then size else size_of v b)
  pub get_account-update_storage :
      (v v' : lib.Verkle) (a key value : Bytes)
      → lib.update_storage v a key value ≡ ok v'
      → (b : Bytes) → (lib.get_account v' b ≡ lib.get_account v b) × (size_of v' b ≡ size_of v b)
  pub get_account-update_contract_code :
      (v v' : lib.Verkle) (a hash code : Bytes)
      → lib.update_contract_code v a hash code ≡ ok v'
      → (b : Bytes) → (lib.get_account v' b ≡ lib.get_account v b) × (size_of v' b ≡ size_of v b)

module _ {lib : Library} (keeps : KeepsAccounts lib) where
  -- The state `s'` has the account at the address, and all others as `s` has them.
  abbrev pub HasAccount : VerkleState lib → VerkleState lib → Bytes → StateAccount → Type 0
  HasAccount s s' address account =
      (b : Bytes)
      → get_account lib s' b ≡ (if bytes_equal b address then ok account else get_account lib s b)

  abbrev pub HasSize : VerkleState lib → VerkleState lib → Bytes → ℕ → Type 0
  HasSize s s' address size =
      (b : Bytes)
      → keeps.size_of s'.verkle b
        ≡ (if bytes_equal b address then size else keeps.size_of s.verkle b)

  get_account-eq :
      (s s' : VerkleState lib) (b : Bytes)
      → lib.get_account s'.verkle b ≡ lib.get_account s.verkle b
      → get_account lib s' b ≡ get_account lib s b
  unfolding get_account
  get_account-eq s s' b e = ap (λ r. r >>= λ account. ok (or_empty lib account)) e

  update-HasAccount :
      (s : VerkleState lib) (v' : lib.Verkle) (address : Bytes) (account : StateAccount) (size : ℕ)
      (codes : Storage)
      → lib.update_account s.verkle address account size ≡ ok v'
      → HasAccount s (record { verkle = v'; codes = codes }) address account
  unfolding get_account
  update-HasAccount s v' address account size codes e b =
      elim (Bool-cases (bytes_equal b address)) [
        | inl same ↦
            rw (keeps.get_account-update_account s.verkle v' address account size e b, same) refl
        | inr other ↦
            rw (keeps.get_account-update_account s.verkle v' address account size e b, other) refl
      ]

  -- the end of `SetNonce`, `SetBalance` and `CreateAccount`
  pub updates_account :
      (s s' : VerkleState lib) (address : Bytes) (account : StateAccount) (size : ℕ)
      → (lib.update_account s.verkle address account size >>= λ v. ok (record s { verkle = v }))
        ≡ ok s'
      → HasAccount s s' address account
        × HasSize s s' address size
        × (s'.codes ≡ s.codes)
        × ((b : Bytes)
            → lib.get_account s'.verkle b
              ≡ (if bytes_equal b address then ok (some account) else lib.get_account s.verkle b))
  updates_account s s' address account size e =
      let (v', run, e') = >>=-eq-ok (lib.update_account s.verkle address account size) _ e in
      let same = ok-injective _ _ e' in
      (
        λ b.
            ap (λ x. get_account lib x b) (sym same)
            ∙ update-HasAccount s v' address account size s.codes run b,
        λ b.
            ap (λ (x : VerkleState lib). keeps.size_of x.verkle b) (sym same)
            ∙ keeps.size_of-update_account s.verkle v' address account size run b,
        ap (λ (x : VerkleState lib). x.codes) (sym same),
        λ b.
            ap (λ (x : VerkleState lib). lib.get_account x.verkle b) (sym same)
            ∙ keeps.get_account-update_account s.verkle v' address account size run b,
      )

  -- A nonce that is set is what the account has then, with its balance and its code hash as before;
  -- all other accounts and all codes are as before.
  pub set_nonce_lem :
      (s s' : VerkleState lib) (address nonce : Bytes)
      → set_nonce lib s address nonce ≡ ok s'
      → (account : StateAccount) × (get_account lib s address ≡ ok account)
        × HasAccount s s' address (record account { nonce = lib.to_uint64 nonce })
        × (s'.codes ≡ s.codes)
  unfolding set_nonce
  set_nonce_lem s s' address nonce e =
      let (account, found, e1) = >>=-eq-ok (get_account lib s address) _ e in
      let (has, _, codes, _) =
        updates_account s s' address (record account { nonce = lib.to_uint64 nonce })
          (get_code_size lib s address) e1 in
      (account, found, has, codes)

  -- A balance that is set is what the account has then, with its nonce and its code hash as before;
  -- all other accounts and all codes are as before.
  pub set_balance_lem :
      (s s' : VerkleState lib) (address : Bytes) (balance : lib.Amount)
      → set_balance lib s address balance ≡ ok s'
      → (account : StateAccount) × (get_account lib s address ≡ ok account)
        × HasAccount s s' address (record account { balance = lib.uint256 balance })
        × (s'.codes ≡ s.codes)
  unfolding set_balance
  set_balance_lem s s' address balance e =
      let (account, found, e1) = >>=-eq-ok (get_account lib s address) _ e in
      let (has, _, codes, _) =
        updates_account s s' address (record account { balance = lib.uint256 balance })
          (get_code_size lib s address) e1 in
      (account, found, has, codes)

  -- the steps of `SetCode`
  pub set_code-updates :
      (s s' : VerkleState lib) (address code : Bytes)
      → set_code lib s address code ≡ ok s'
      → (account : StateAccount) × (get_account lib s address ≡ ok account)
        × HasAccount s s' address (record account { code_hash = lib.keccak256 code })
        × HasSize s s' address (length code)
        × (s'.codes ≡ insert s.codes address code)
        × ((b : Bytes)
            → lib.get_account s'.verkle b ≡ (
                if bytes_equal b address
                then ok (some (record account { code_hash = lib.keccak256 code }))
                else lib.get_account s.verkle b))
  unfolding set_code
  set_code-updates s s' address code e =
      let (account, found, e1) = >>=-eq-ok (get_account lib s address) _ e in
      let new : StateAccount = record account { code_hash = lib.keccak256 code } in
      let (v1, run1, e2) = >>=-eq-ok (lib.update_account s.verkle address new (length code)) _ e1 in
      let (v2, run2, e3) =
        >>=-eq-ok (lib.update_contract_code v1 address (lib.keccak256 code) code) _ e2 in
      let same = ok-injective _ _ e3 in
      let kept =
        keeps.get_account-update_contract_code v1 v2 address (lib.keccak256 code) code run2 in
      let mid : VerkleState lib = record { verkle = v1; codes = s.codes } in
      (
        account,
        found,
        λ b.
            ap (λ x. get_account lib x b) (sym same)
            ∙ get_account-eq mid (record { verkle = v2; codes = insert s.codes address code }) b
                (kept b).0
            ∙ update-HasAccount s v1 address new (length code) s.codes run1 b,
        λ b.
            ap (λ (x : VerkleState lib). keeps.size_of x.verkle b) (sym same)
            ∙ (kept b).1
            ∙ keeps.size_of-update_account s.verkle v1 address new (length code) run1 b,
        ap (λ (x : VerkleState lib). x.codes) (sym same),
        λ b.
            ap (λ (x : VerkleState lib). lib.get_account x.verkle b) (sym same)
            ∙ (kept b).0
            ∙ keeps.get_account-update_account s.verkle v1 address new (length code) run1 b,
      )
