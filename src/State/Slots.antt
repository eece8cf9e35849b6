-- ===== src/State/Slots.antt =====
-- state.go: the storage slots that `Apply` writes, among all other fields that it writes.
use verkle_trie.Prelude.{
  ℕ, ◌^◌, ◌<◌, ◌≡◌, ◌≢◌, refl, ◌∙◌, ap, ap₂, Bool, true, false, ◌&&◌, some, List, [], ◌∷◌, Bytes,
  bytes_equal, bytes_equal-eq, bytes_equal_refl, length, be32, zeros, slice, drop, be_value,
  Bool-cases, inl, inr, All, arith, if◌then◌else◌,
}
use verkle_trie.Code.{split_code}
use verkle_trie.Code.Chunks.{length-split_code}
use verkle_trie.Embedding.{
  get_trie_key, get_basic_data_key, get_code_hash_key, get_code_chunk_key, get_storage_key,
}
use verkle_trie.Embedding.Layout.{Field, IsField, place}
use verkle_trie.Embedding.Keys.{IsCollisionFree, get_trie_key-injective, get_storage_key-IsKey}
use verkle_trie.Trie.{Trie}
use verkle_trie.State.{patch, Env, Update, apply_to_trie, get_storage}
use verkle_trie.State.View.{HasLengths, assign, changes, Views}
use verkle_trie.State.Changes.{
  rewrite_basic_data, created, with_nonce, with_balance, with_slot, with_code, with_code_header,
  applied, apply_to_trie-Writes,
}
use verkle_trie.State.Accounts.{assign_other}
use verkle_trie.State.Codes.{with_chunks_other}

-- the value of a slot after the writes of an update
unfoldable pub slot_value : Bytes → List (Bytes × Bytes × Bytes) → Bytes → Bytes → Bytes
slot_value before [] account key = before
slot_value before ((a, k, value) ∷ slots) account key =
    slot_value (if bytes_equal a account && bytes_equal k key then value else before) slots account
      key

-- A loop whose rounds keep a value keeps it.
changes-keep :
    {A : Type 0} (P : A → Type 0) (change : (Bytes → Bytes) → A → Bytes → Bytes) (key : Bytes)
    → ((f : Bytes → Bytes) (a : A) → P a → change f a key ≡ f key)
    → (as' : List A) (f : Bytes → Bytes) → All P as'
    → changes change f as' key ≡ f key
unfolding changes
changes-keep P change key keep [] f h = refl
changes-keep P change key keep (a ∷ as') f h =
    changes-keep P change key keep as' (change f a) h.1 ∙ keep f a h.0

storage-injective : (k k' : Bytes) → ◌≡◌ {A = Field} (Field.storage k) (Field.storage k') → k ≡ k'
storage-injective k k' e = cc

and-eq-true : (a b : Bool) → (a && b) ≡ true → (a ≡ true) × (b ≡ true)
and-eq-true true b e = (refl, e)
and-eq-true false b e = cc

module _ (env : Env) (account key : Bytes) where
  -- the Pedersen hash of the slot's tree index does not collide with that of the field
  abbrev pub IsFree : Bytes → Field → Type 0
  IsFree a field =
      IsCollisionFree env.ipa account (place (Field.storage key)).tree_index a
        (place field).tree_index

  -- The hash does not collide on the slot and a field that the update writes. Slot keys have 32 bytes,
  -- and codes less than 2 ^ 32.
  pub record IsApart (update : Update env) : Type 0 where
    pub created :
        All (λ a. IsFree a Field.basic_data × IsFree a Field.code_hash) update.created_accounts
    pub nonces : All (λ p. IsFree p.0 Field.basic_data) update.nonces
    pub balances : All (λ p. IsFree p.0 Field.basic_data) update.balances
    pub slots : All (λ p. IsField (Field.storage p.1) × IsFree p.0 (Field.storage p.1)) update.slots
    pub codes :
        All
          (λ p.
            (length p.1 < 2 ^ 32)
            × IsFree p.0 Field.basic_data
            × IsFree p.0 Field.code_hash
            × ((n : ℕ) → n < length (split_code p.1) → IsFree p.0 (Field.code_chunk n)))
          update.codes

  module _ (sized : IsField (Field.storage key)) where
    abbrev slot_key : Bytes
    slot_key = get_storage_key env.ipa account key

    slot_key-injective :
        (a : Bytes) (field : Field)
        → IsField field
        → IsFree a field
        → slot_key ≡ get_trie_key env.ipa a (place field)
        → (account ≡ a) × (Field.storage key ≡ field)
    unfolding get_storage_key place
    slot_key-injective a field h free e =
        get_trie_key-injective env.ipa account a (Field.storage key) field sized h free e

    slot_key-ne-basic_data :
        (a : Bytes) → IsFree a Field.basic_data → slot_key ≢ get_basic_data_key env.ipa a
    unfolding get_basic_data_key place
    slot_key-ne-basic_data a free e =
        let (_, same) = slot_key-injective a Field.basic_data tt free e in cc

    slot_key-ne-code_hash :
        (a : Bytes) → IsFree a Field.code_hash → slot_key ≢ get_code_hash_key env.ipa a
    unfolding get_code_hash_key place
    slot_key-ne-code_hash a free e =
        let (_, same) = slot_key-injective a Field.code_hash tt free e in cc

    slot_key-ne-code_chunk :
        (a : Bytes) (n : ℕ)
        → n < 2 ^ 64
        → IsFree a (Field.code_chunk n)
        → slot_key ≢ get_code_chunk_key env.ipa a n
    unfolding get_code_chunk_key place
    slot_key-ne-code_chunk a n h free e =
        let (_, same) = slot_key-injective a (Field.code_chunk n) h free e in cc

    created-keep :
        (f : Bytes → Bytes) (a : Bytes)
        → IsFree a Field.basic_data × IsFree a Field.code_hash
        → created env f a slot_key ≡ f slot_key
    created-keep f a (basic, hash) =
        let data_key = get_basic_data_key env.ipa a in
        elim (Bool-cases (bytes_equal (slice 4 32 (f data_key)) (zeros 28))) [
          | inr used ↦ rw used refl
          | inl empty ↦ rw empty (
              assign_other env (assign f data_key (f data_key)) (get_code_hash_key env.ipa a)
                env.empty_code_hash slot_key (slot_key-ne-code_hash a hash)
              ∙ assign_other env f data_key (f data_key) slot_key (slot_key-ne-basic_data a basic))
        ]

    with_slot-eq :
        (f : Bytes → Bytes) (a k value : Bytes)
        → IsField (Field.storage k)
        → IsFree a (Field.storage k)
        → with_slot env f (a, k, value) slot_key
          ≡ (if bytes_equal a account && bytes_equal k key then value else f slot_key)
    unfolding get_storage_key place be_value
    with_slot-eq f a k value h free =
        elim (Bool-cases (bytes_equal slot_key (get_storage_key env.ipa a k))) [
          | inl same ↦
              let (accounts, fields) =
                slot_key-injective a (Field.storage k) h free
                  (unfold get_storage_key in bytes_equal-eq _ _ same) in
              let keys = storage-injective key k fields in
              let first : bytes_equal a account ≡ true =
                ap (bytes_equal a) accounts ∙ bytes_equal_refl a in
              let second : bytes_equal k key ≡ true =
                ap (bytes_equal k) keys ∙ bytes_equal_refl k in
              rw (same, first, second) refl
          | inr other ↦ rw other (elim (Bool-cases (bytes_equal a account && bytes_equal k key)) [
            | inr apart ↦ rw apart refl
            | inl both ↦
                let (first, second) =
                  and-eq-true (bytes_equal a account) (bytes_equal k key) both in
                let same : get_storage_key env.ipa a k ≡ slot_key =
                  ap₂ (get_storage_key env.ipa) (bytes_equal-eq a account first)
                    (bytes_equal-eq k key second) in
                cc (ap (bytes_equal slot_key) same, bytes_equal_refl slot_key, other)
          ])
        ]

    basic_data-keep :
        (rewrite : Bytes → Bytes) (f : Bytes → Bytes) (a : Bytes)
        → IsFree a Field.basic_data
        → rewrite_basic_data env rewrite f a slot_key ≡ f slot_key
    basic_data-keep rewrite f a free =
        let data_key = get_basic_data_key env.ipa a in
        assign_other env f data_key (rewrite (f data_key)) slot_key (slot_key-ne-basic_data a free)

    with_code-keep :
        (f : Bytes → Bytes) (a code : Bytes)
        → length code < 2 ^ 32
        → IsFree a Field.basic_data
        → IsFree a Field.code_hash
        → ((n : ℕ) → n < length (split_code code) → IsFree a (Field.code_chunk n))
        → with_code env f (a, code) slot_key ≡ f slot_key
    with_code-keep f a code short basic hash chunks =
        let count = length-split_code code in
        let rewrite = patch 4 8 (be32 (length code)) in
        with_chunks_other env a (split_code code) (with_code_header env f a code) 0 slot_key
          (λ n lo hi. slot_key-ne-code_chunk a n (omega arith) (chunks n (omega arith)))
        ∙ assign_other env (rewrite_basic_data env rewrite f a) (get_code_hash_key env.ipa a)
            (env.keccak256 code) slot_key (slot_key-ne-code_hash a hash)
        ∙ basic_data-keep rewrite f a basic

    with_slots-eq :
        (slots : List (Bytes × Bytes × Bytes)) (f : Bytes → Bytes)
        → All (λ p. IsField (Field.storage p.1) × IsFree p.0 (Field.storage p.1)) slots
        → changes (with_slot env) f slots slot_key ≡ slot_value (f slot_key) slots account key
    unfolding changes slot_value
    with_slots-eq [] f h = refl
    with_slots-eq ((a, k, value) ∷ slots) f h =
        with_slots-eq slots (with_slot env f (a, k, value)) h.1
        ∙ ap (λ before. slot_value before slots account key) (with_slot-eq f a k value h.0.0 h.0.1)

    -- Of all writes of an update, those to the slot itself decide its value.
    pub applied-slot :
        (f : Bytes → Bytes) (update : Update env)
        → IsApart update
        → applied env f update slot_key ≡ slot_value (f slot_key) update.slots account key
    unfolding applied
    applied-slot f u h =
        let f1 = changes (created env) f u.created_accounts in
        let f2 = changes (with_nonce env) f1 u.nonces in
        let f3 = changes (with_balance env) f2 u.balances in
        let f4 = changes (with_slot env) f3 u.slots in
        changes-keep _ (with_code env) slot_key
          (λ g p (short, basic, hash, chunks). with_code-keep g p.0 p.1 short basic hash chunks)
          u.codes f4 h.codes
        ∙ with_slots-eq u.slots f3 h.slots
        ∙ ap (λ before. slot_value before u.slots account key)
            (changes-keep _ (with_balance env) slot_key
                (λ g p free. basic_data-keep (patch 16 32 (drop 16 (env.bytes32 p.1))) g p.0 free)
                u.balances f2 h.balances
              ∙ changes-keep _ (with_nonce env) slot_key
                  (λ g p free. basic_data-keep (patch 8 16 p.1) g p.0 free) u.nonces f1 h.nonces
              ∙ changes-keep _ (created env) slot_key created-keep u.created_accounts f h.created)

    -- `Apply` on a valid trie, with 32-byte slot values, does not panic, and afterwards `GetStorage` of
    -- a slot returns the last value that the update has for it, and what it returned before where the
    -- update has none, whatever else the update writes. The hash must not collide on the slot and a
    -- field that the update writes; codes have less than 2 ^ 32 bytes and slot keys 32.
    pub apply_to_trie-get_storage :
        HasLengths env
        → (t : Trie env.ipa) (f : Bytes → Bytes) (update : Update env) → Views env t f
        → All (λ p. length p.2 ≡ 32) update.slots
        → IsApart update
        → (t' : Trie env.ipa) × (before : Bytes) × (apply_to_trie env t update ≡ some t')
          × (get_storage env t account key ≡ some before)
          × (get_storage env t' account key ≡ some (slot_value before update.slots account key))
    unfolding get_storage
    apply_to_trie-get_storage lengths t f update v h apart =
        let (t', e, v') = apply_to_trie-Writes env lengths t f update v h in
        let is_key = get_storage_key-IsKey env.ipa account key in
        (
          t',
          f slot_key,
          e,
          v.reads slot_key is_key,
          v'.reads slot_key is_key ∙ ap some (applied-slot f update apart),
        )
