-- ===== src/State/Accounts.antt =====
-- state.go: what the getters return after a round of a loop of `Apply`.
use verkle_trie.Prelude.{
  ℕ, ◌-◌, ◌≤◌, ◌≡◌, ◌≢◌, refl, ◌∙◌, sym, ap, some, Bytes, bytes_equal_refl, ne→bytes_equal,
  be_value, zeros, length, drop, slice, arith, length-drop, length-replicate,
}
use verkle_trie.Embedding.{get_basic_data_key}
use verkle_trie.Embedding.Keys.{get_basic_data_key-IsKey}
use verkle_trie.Node.Shape.{IsKey}
use verkle_trie.Trie
use verkle_trie.Trie.{Trie}
use verkle_trie.Trie.Laws.{empty-IsValid}
use verkle_trie.State.{
  Env, patch, basic_data, get_nonce, get_balance, get_code_size, set_nonce, set_balance,
}
use verkle_trie.State.Patch.{slice-patch, slice-patch_behind, slice-patch_before}
use verkle_trie.State.View.{HasLengths, assign, Views}
use verkle_trie.State.Changes.{set_nonce-Writes, set_balance-Writes}

module _ (env : Env) where
  -- the value of an account's basic data
  abbrev pub basic : (Bytes → Bytes) → Bytes → Bytes
  basic f account = f (get_basic_data_key env.ipa account)

  -- a new state: every value is zero
  pub empty-Views : Views env (Trie.empty env.ipa) (λ k. zeros 32)
  unfolding Trie.get
  empty-Views = record {
    valid = empty-IsValid;
    reads = λ k h. refl;
    sized = λ k h. length-replicate {A = ℕ} 32 0;
  }

  module _ {t : Trie env.ipa} {f : Bytes → Bytes} (v : Views env t f) (account : Bytes) where
    pub basic_data-Views : basic_data env t account ≡ some (basic f account)
    basic_data-Views =
        v.reads (get_basic_data_key env.ipa account) (get_basic_data_key-IsKey env.ipa account)

    pub get_nonce-Views : get_nonce env t account ≡ some (slice 8 16 (basic f account))
    unfolding get_nonce
    get_nonce-Views = rw basic_data-Views refl

    pub get_balance-Views :
        get_balance env t account ≡ some (env.new_from_bytes (slice 16 32 (basic f account)))
    unfolding get_balance
    get_balance-Views = rw basic_data-Views refl

    pub get_code_size-Views :
        get_code_size env t account ≡ some (be_value 0 (slice 4 8 (basic f account)))
    unfolding get_code_size
    get_code_size-Views = rw basic_data-Views refl

  pub assign_self : (f : Bytes → Bytes) (key value : Bytes) → assign f key value key ≡ value
  assign_self f key value = rw (bytes_equal_refl key) refl

  pub assign_other :
      (f : Bytes → Bytes) (key value k : Bytes) → k ≢ key → assign f key value k ≡ f k
  assign_other f key value k h = rw (ne→bytes_equal k key h) refl

  -- the values of all other keys are as before
  abbrev pub Keeps : Trie env.ipa → Trie env.ipa → Bytes → Type 0
  Keeps t t' key = (k : Bytes) → IsKey k → k ≢ key → Trie.get env.ipa t' k ≡ Trie.get env.ipa t k

  pub assign-Keeps :
      {t t' : Trie env.ipa} {f : Bytes → Bytes} (key value : Bytes)
      → Views env t f
      → Views env t' (assign f key value)
      → Keeps t t' key
  assign-Keeps {f = f} key value v v' k len h =
      v'.reads k len ∙ ap some (assign_other f key value k h) ∙ sym (v.reads k len)

  module _ (lengths : HasLengths env) where
    -- A nonce that `Apply` writes is what `GetNonce` returns then. The account's balance and code
    -- size, and the values of all other keys, are as before.
    pub set_nonce-get_nonce :
        (t : Trie env.ipa) (f : Bytes → Bytes) (account nonce : Bytes)
        → Views env t f
        → length nonce ≡ 8
        → (t' : Trie env.ipa) × (set_nonce env t (account, nonce) ≡ some t')
          × (get_nonce env t' account ≡ some nonce)
          × (get_balance env t' account ≡ get_balance env t account)
          × (get_code_size env t' account ≡ get_code_size env t account)
          × Keeps t t' (get_basic_data_key env.ipa account)
    set_nonce-get_nonce t f account nonce v len =
        let key = get_basic_data_key env.ipa account in
        let old = f key in
        let new = patch 8 16 nonce old in
        let size = v.sized key (get_basic_data_key-IsKey env.ipa account) in
        let fits : 16 ≤ length old = omega arith in
        let (t', e, v') = set_nonce-Writes env lengths t f (account, nonce) v in
        let now : basic (assign f key new) account ≡ new = assign_self f key new in
        (
          t',
          e,
          get_nonce-Views v' account
              ∙ ap some (ap (slice 8 16) now ∙ slice-patch 8 16 nonce old (omega arith) fits len),
          get_balance-Views v' account
              ∙ ap (λ w. some (env.new_from_bytes w))
                  (ap (slice 16 32) now
                    ∙ slice-patch_behind 8 16 nonce old (omega arith) fits 16 32 (omega arith))
              ∙ sym (get_balance-Views v account),
          get_code_size-Views v' account
              ∙ ap (λ w. some (be_value 0 w))
                  (ap (slice 4 8) now
                    ∙ slice-patch_before 8 16 nonce old (omega arith) fits 4 8 (omega arith))
              ∙ sym (get_code_size-Views v account),
          assign-Keeps key new v v',
        )

    -- A balance that `Apply` writes is what `GetBalance` returns then, where an amount is the last 16
    -- of its 32 bytes. The account's nonce and code size, and the values of all other keys, are as
    -- before.
    pub set_balance-get_balance :
        (t : Trie env.ipa) (f : Bytes → Bytes) (account : Bytes) (balance : env.Amount)
        → Views env t f
        → env.new_from_bytes (drop 16 (env.bytes32 balance)) ≡ balance
        → (t' : Trie env.ipa) × (set_balance env t (account, balance) ≡ some t')
          × (get_balance env t' account ≡ some balance)
          × (get_nonce env t' account ≡ get_nonce env t account)
          × (get_code_size env t' account ≡ get_code_size env t account)
          × Keeps t t' (get_basic_data_key env.ipa account)
    set_balance-get_balance t f account balance v restores =
        let key = get_basic_data_key env.ipa account in
        let old = f key in
        let amount = drop 16 (env.bytes32 balance) in
        let new = patch 16 32 amount old in
        let size = v.sized key (get_basic_data_key-IsKey env.ipa account) in
        let fits : 32 ≤ length old = omega arith in
        let len : length amount ≡ 32 - 16 =
          omega (arith, length-drop 16 (env.bytes32 balance), lengths.length-bytes32 balance) in
        let (t', e, v') = set_balance-Writes env lengths t f (account, balance) v in
        let now : basic (assign f key new) account ≡ new = assign_self f key new in
        (
          t',
          e,
          get_balance-Views v' account
              ∙ ap (λ w. some (env.new_from_bytes w))
                  (ap (slice 16 32) now ∙ slice-patch 16 32 amount old (omega arith) fits len)
              ∙ ap some restores,
          get_nonce-Views v' account
              ∙ ap some (
                  ap (slice 8 16) now
                  ∙ slice-patch_before 16 32 amount old (omega arith) fits 8 16 (omega arith))
              ∙ sym (get_nonce-Views v account),
          get_code_size-Views v' account
              ∙ ap (λ w. some (be_value 0 w))
                  (ap (slice 4 8) now
                    ∙ slice-patch_before 16 32 amount old (omega arith) fits 4 8 (omega arith))
              ∙ sym (get_code_size-Views v account),
          assign-Keeps key new v v',
        )
