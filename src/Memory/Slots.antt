-- ===== src/Memory/Slots.antt =====
-- state.go: the written slots of `State`, and `HasEmptyStorage`.
use verkle_trie.Prelude.{
  ◌≡◌, ◌↔◌, refl, ◌∙◌, sym, ap, Bool, true, false, ◌&&◌, ◌||◌, some, List, [], ◌∷◌, Bytes,
  bytes_equal, bytes_equal-eq, bytes_equal_refl, Bool-cases, inl, inr, zeros,
}
use verkle_trie.Embedding.{get_storage_key}
use verkle_trie.Embedding.Keys.{get_storage_key-IsKey}
use verkle_trie.Trie.{Trie}
use verkle_trie.State.{Env, get_storage}
use verkle_trie.State.View.{Views}
use verkle_trie.Memory.{
  State, WrittenSlots, slots_of, contains, add_key, track, track_all, all_zero, has_empty_storage,
}

-- the slot was written
abbrev pub is_tracked : WrittenSlots → Bytes → Bytes → Bool
is_tracked written address key = contains (slots_of written address) key

-- the update writes the slot
unfoldable pub writes_slot : List (Bytes × Bytes × Bytes) → Bytes → Bytes → Bool
writes_slot [] address key = false
writes_slot ((a, k, value) ∷ slots) address key =
    (bytes_equal a address && bytes_equal k key) || writes_slot slots address key

contains-add_key :
    (keys : List Bytes) (key k : Bytes)
    → contains (add_key keys key) k ≡ (bytes_equal key k || contains keys k)
unfolding add_key contains
contains-add_key keys key k = elim (Bool-cases (contains keys key)) [
  | inr new ↦ rw new refl
  | inl old ↦ elim (Bool-cases (bytes_equal key k)) [
    | inr other ↦ rw (old, other) refl
    | inl same ↦ rw (old, same) (ap (contains keys) (sym (bytes_equal-eq key k same)) ∙ old)
  ]
]

is_tracked-track :
    (written : WrittenSlots) (account key a k : Bytes)
    → is_tracked (track written account key) a k
      ≡ ((bytes_equal account a && bytes_equal key k) || is_tracked written a k)
unfolding track slots_of contains
is_tracked-track [] account key a k = elim (Bool-cases (bytes_equal account a)) [
  | inl same ↦ rw same refl
  | inr other ↦ rw other refl
]
is_tracked-track ((a', keys) ∷ written) account key a k =
    elim (Bool-cases (bytes_equal a' account)) [
      | inl own ↦
          let e = bytes_equal-eq a' account own in
          rw (own, e)
            (elim (Bool-cases (bytes_equal account a)) [
              | inl same ↦ rw (same) (contains-add_key keys key k)
              | inr other ↦ rw other refl
            ])
      | inr foreign ↦ rw foreign (elim (Bool-cases (bytes_equal a' a)) [
        | inr other ↦ rw other (is_tracked-track written account key a k)
        | inl same ↦
            let apart : bytes_equal account a ≡ false = elim (Bool-cases (bytes_equal account a)) [
              | inr h ↦ h
              | inl h ↦ cc (same, bytes_equal-eq account a h, foreign)
            ] in
            rw (same, apart) refl
      ])
    ]

or_left_comm : (a b c : Bool) → (a || (b || c)) ≡ ((b || a) || c)
or_left_comm true true c = refl
or_left_comm true false c = refl
or_left_comm false true c = refl
or_left_comm false false c = refl

or_true : (b : Bool) → (b || true) ≡ true
or_true true = refl
or_true false = refl

-- Exactly the slots of the updates are tracked, beside those that were.
pub is_tracked-track_all :
    (slots : List (Bytes × Bytes × Bytes)) (written : WrittenSlots) (a k : Bytes)
    → is_tracked (track_all written slots) a k ≡ (writes_slot slots a k || is_tracked written a k)
unfolding track_all writes_slot
is_tracked-track_all [] written a k = refl
is_tracked-track_all ((account, key, value) ∷ slots) written a k =
    is_tracked-track_all slots (track written account key) a k
    ∙ ap (λ x. writes_slot slots a k || x) (is_tracked-track written account key a k)
    ∙ or_left_comm (writes_slot slots a k) (bytes_equal account a && bytes_equal key k)
        (is_tracked written a k)

module _ {env : Env} where
  all_zero_iff :
      {t : Trie env.ipa} {f : Bytes → Bytes}
      → Views env t f
      → (address : Bytes) (keys : List Bytes)
      → (b : Bool) × (all_zero env t address keys ≡ some b)
        × ((b ≡ true) ↔ (
            (k : Bytes)
            → contains keys k ≡ true
            → f (get_storage_key env.ipa address k) ≡ zeros 32))
  unfolding all_zero get_storage contains
  all_zero_iff v address [] = (true, refl, (λ e k h. cc, λ h. refl))
  all_zero_iff {f = f} v address (key ∷ keys) =
      let place = get_storage_key env.ipa address key in
      let reads = v.reads place (get_storage_key-IsKey env.ipa address key) in
      elim (Bool-cases (bytes_equal (f place) (zeros 32))) [
        | inr nonzero ↦ (
          false,
          rw (reads, nonzero) refl,
          (
            λ e. cc,
            λ h.
                let first = h key (ap (λ x. x || contains keys key) (bytes_equal_refl key)) in
                cc (ap (λ x. bytes_equal x (zeros 32)) first, bytes_equal_refl (zeros 32)),
          ),
        )
        | inl zero_value ↦
            let (b, e, both) = all_zero_iff v address keys in
            (
              b,
              rw (reads, zero_value) e,
              (
                λ h k found. elim (Bool-cases (bytes_equal key k)) [
                  | inl same ↦
                      ap (λ x. f (get_storage_key env.ipa address x))
                        (sym (bytes_equal-eq key k same))
                      ∙ bytes_equal-eq (f place) (zeros 32) zero_value
                  | inr other ↦ both.0 h k (rw other at found)
                ],
                λ h. both.1 (λ k found. h k (rw found (or_true (bytes_equal key k)))),
              ),
            )
      ]

  -- `HasEmptyStorage` of a state with a valid trie does not panic, and is true exactly if every tracked slot of the address is
  -- zero.
  pub has_empty_storage_iff :
      (s : State env) (f : Bytes → Bytes) (address : Bytes)
      → Views env s.trie f
      → (b : Bool) × (has_empty_storage env s address ≡ some b)
        × ((b ≡ true) ↔ (
            (k : Bytes)
            → is_tracked s.written_slots address k ≡ true
            → f (get_storage_key env.ipa address k) ≡ zeros 32))
  unfolding has_empty_storage
  has_empty_storage_iff s f address v = all_zero_iff v address (slots_of s.written_slots address)
