-- ===== src/Geth/Sizes.antt =====
-- geth/state.go: the sizes of the codes, which the trie and the map of codes both have.
use verkle_trie.Prelude.{
  ℕ, ◌≡◌, refl, ◌∙◌, sym, ap, Option, none, some, Bytes, bytes_equal, bytes_equal-eq,
  bytes_equal_comm, length, Bool-cases, inl, inr, if◌then◌else◌,
}
use verkle_trie.Witness.{lookup, insert}
use verkle_trie.Witness.Extracts.{lookup-insert}
use verkle_trie.Geth.{
  ok, ◌>>=◌, StateAccount, Library, VerkleState, get_account, code_size, get_code_size,
  create_account, create_from, set_nonce, set_balance, set_storage, set_code,
}
use verkle_trie.Geth.Accounts.{
  >>=-eq-ok, ok-injective, KeepsAccounts, updates_account, set_code-updates,
}

module _ {lib : Library} (keeps : KeepsAccounts lib) where
  -- The trie has the size of each code that the map holds, and an account without one has no code.
  pub record IsSized (s : VerkleState lib) : Type 0 where
    pub sizes : (b : Bytes) → keeps.size_of s.verkle b ≡ get_code_size lib s b
    pub fresh : (b : Bytes) → lib.get_account s.verkle b ≡ ok none → get_code_size lib s b ≡ 0

  same_codes :
      (s s' : VerkleState lib) (b : Bytes)
      → s'.codes ≡ s.codes
      → get_code_size lib s' b ≡ get_code_size lib s b
  unfolding get_code_size
  same_codes s s' b e = ap (λ codes. code_size lib (lookup codes b)) e

  -- an account is written with the size of its code
  update-IsSized :
      (s s' : VerkleState lib) (address : Bytes) (account : StateAccount) (size : ℕ)
      → IsSized s
      → size ≡ get_code_size lib s address
      → (lib.update_account s.verkle address account size >>= λ v. ok (record s { verkle = v }))
        ≡ ok s'
      → IsSized s'
  update-IsSized s s' address account size w fits e =
      let (_, sized, codes, accounts) = updates_account keeps s s' address account size e in
      record {
        sizes = λ b. elim (Bool-cases (bytes_equal b address)) [
          | inl same ↦
              (rw same at (sized b))
              ∙ fits
              ∙ ap (get_code_size lib s) (sym (bytes_equal-eq b address same))
              ∙ sym (same_codes s s' b codes)
          | inr other ↦ (rw other at (sized b)) ∙ w.sizes b ∙ sym (same_codes s s' b codes)
        ];
        fresh = λ b missing. elim (Bool-cases (bytes_equal b address)) [
          | inl same ↦ cc (rw same at (accounts b), missing)
          | inr other ↦
              same_codes s s' b codes ∙ w.fresh b (sym (rw other at (accounts b)) ∙ missing)
        ];
      }

  pub set_nonce-IsSized :
      (s s' : VerkleState lib) (address nonce : Bytes)
      → IsSized s
      → set_nonce lib s address nonce ≡ ok s'
      → IsSized s'
  unfolding set_nonce
  set_nonce-IsSized s s' address nonce w e =
      let (account, _, e') = >>=-eq-ok (get_account lib s address) _ e in
      update-IsSized s s' address _ _ w refl e'

  pub set_balance-IsSized :
      (s s' : VerkleState lib) (address : Bytes) (balance : lib.Amount)
      → IsSized s
      → set_balance lib s address balance ≡ ok s'
      → IsSized s'
  unfolding set_balance
  set_balance-IsSized s s' address balance w e =
      let (account, _, e') = >>=-eq-ok (get_account lib s address) _ e in
      update-IsSized s s' address _ _ w refl e'

  create_from-IsSized :
      (s s' : VerkleState lib) (address : Bytes) (o : Option StateAccount)
      → IsSized s
      → lib.get_account s.verkle address ≡ ok o
      → create_from lib s address o ≡ ok s'
      → IsSized s'
  create_from-IsSized s s' address (some account) w found e =
      let same = ok-injective _ _ e in
      record {
        sizes = λ b.
            ap (λ (x : VerkleState lib). keeps.size_of x.verkle b) (sym same)
            ∙ w.sizes b
            ∙ ap (λ x. get_code_size lib x b) same;
        fresh = λ b missing.
            ap (λ x. get_code_size lib x b) (sym same)
            ∙ w.fresh b (ap (λ (x : VerkleState lib). lib.get_account x.verkle b) same ∙ missing);
      }
  create_from-IsSized s s' address none w found e =
      update-IsSized s s' address _ _ w (sym (w.fresh address found)) e

  pub create_account-IsSized :
      (s s' : VerkleState lib) (address : Bytes)
      → IsSized s
      → create_account lib s address ≡ ok s'
      → IsSized s'
  unfolding create_account
  create_account-IsSized s s' address w e =
      let (o, found, e') = >>=-eq-ok (lib.get_account s.verkle address) _ e in
      create_from-IsSized s s' address o w found e'

  pub set_storage-IsSized :
      (s s' : VerkleState lib) (address key value : Bytes)
      → IsSized s
      → set_storage lib s address key value ≡ ok s'
      → IsSized s'
  unfolding set_storage
  set_storage-IsSized s s' address key value w e =
      let (v', run, e') = >>=-eq-ok (lib.update_storage s.verkle address key value) _ e in
      let same = ok-injective _ _ e' in
      let codes = ap (λ (x : VerkleState lib). x.codes) (sym same) in
      let kept = keeps.get_account-update_storage s.verkle v' address key value run in
      record {
        sizes = λ b.
            ap (λ (x : VerkleState lib). keeps.size_of x.verkle b) (sym same)
            ∙ (kept b).1
            ∙ w.sizes b
            ∙ sym (same_codes s s' b codes);
        fresh = λ b missing.
            same_codes s s' b codes
            ∙ w.fresh b (
                sym (kept b).0
                ∙ ap (λ (x : VerkleState lib). lib.get_account x.verkle b) same
                ∙ missing);
      }

  pub size-insert :
      (s s' : VerkleState lib) (address code b : Bytes)
      → s'.codes ≡ insert s.codes address code
      → get_code_size lib s' b
        ≡ (if bytes_equal b address then length code else get_code_size lib s b)
  unfolding get_code_size code_size
  size-insert s s' address code b e =
      ap (λ codes. code_size lib (lookup codes b)) e
      ∙ ap (code_size lib) (lookup-insert s.codes address code b)
      ∙ (elim (Bool-cases (bytes_equal b address)) [
        | inl same ↦ rw (bytes_equal_comm address b, same) refl
        | inr other ↦ rw (bytes_equal_comm address b, other) refl
      ])

  pub set_code-IsSized :
      (s s' : VerkleState lib) (address code : Bytes)
      → IsSized s
      → set_code lib s address code ≡ ok s'
      → IsSized s'
  set_code-IsSized s s' address code w e =
      let (account, _, _, sized, codes, accounts) = set_code-updates keeps s s' address code e in
      record {
        sizes = λ b. elim (Bool-cases (bytes_equal b address)) [
          | inl same ↦
              (rw same at (sized b)) ∙ sym (rw same at (size-insert s s' address code b codes))
          | inr other ↦
              (rw other at (sized b))
              ∙ w.sizes b
              ∙ sym (rw other at (size-insert s s' address code b codes))
        ];
        fresh = λ b missing. elim (Bool-cases (bytes_equal b address)) [
          | inl same ↦ cc (rw same at (accounts b), missing)
          | inr other ↦
              (rw other at (size-insert s s' address code b codes))
              ∙ w.fresh b (sym (rw other at (accounts b)) ∙ missing)
        ];
      }
