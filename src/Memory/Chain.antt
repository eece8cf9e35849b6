-- ===== src/Memory/Chain.antt =====
-- state.go: `Apply` of one block after the other, the storage slots afterwards and `HasEmptyStorage`.
use verkle_trie.Prelude.{
  ℕ, ◌≡◌, ◌≢◌, refl, ◌∙◌, sym, ap, Bool, true, false, ◌&&◌, ◌||◌, Option, some, ◌>>=◌, List, [],
  ◌∷◌, ◌++◌, Bytes, bytes_equal, bytes_equal_refl, length, zeros, Bool-cases, inl, inr, All,
  if◌then◌else◌,
}
use verkle_trie.Embedding.{get_storage_key}
use verkle_trie.Embedding.Layout.{Field, IsField}
use verkle_trie.Embedding.Keys.{get_storage_key-IsKey}
use verkle_trie.Trie.{Trie}
use verkle_trie.State.{Env, Update, get_storage}
use verkle_trie.State.View.{HasLengths, Views}
use verkle_trie.State.Changes.{applied}
use verkle_trie.State.Accounts.{empty-Views}
use verkle_trie.State.Slots.{slot_value, IsApart, applied-slot}
use verkle_trie.Memory.{State, contains, slots_of, all_zero, new_state, apply, has_empty_storage}
use verkle_trie.Memory.Slots.{is_tracked, writes_slot, is_tracked-track_all, has_empty_storage_iff}
use verkle_trie.Memory.Blocks.{apply_lem}

slot_value-append :
    (xs ys : List (Bytes × Bytes × Bytes)) (before account key : Bytes)
    → slot_value before (xs ++ ys) account key
      ≡ slot_value (slot_value before xs account key) ys account key
unfolding slot_value
slot_value-append [] ys before account key = refl
slot_value-append ((a, k, value) ∷ xs) ys before account key =
    slot_value-append xs ys (if bytes_equal a account && bytes_equal k key then value else before)
      account key

-- A slot that is not written keeps its value.
slot_value_unwritten :
    (slots : List (Bytes × Bytes × Bytes)) (before account key : Bytes)
    → writes_slot slots account key ≡ false
    → slot_value before slots account key ≡ before
unfolding slot_value writes_slot
slot_value_unwritten [] before account key h = refl
slot_value_unwritten ((a, k, value) ∷ slots) before account key h =
    elim (Bool-cases (bytes_equal a account && bytes_equal k key)) [
      | inl own ↦ cc (rw own at h)
      | inr other ↦ rw other (slot_value_unwritten slots before account key (rw other at h))
    ]

or_assoc : (a b c : Bool) → (a || (b || c)) ≡ ((a || b) || c)
or_assoc true b c = refl
or_assoc false b c = refl

or_regroup : (a b c : Bool) → (a || (b || c)) ≡ ((b || a) || c)
or_regroup true true c = refl
or_regroup true false c = refl
or_regroup false true c = refl
or_regroup false false c = refl

writes_slot-append :
    (xs ys : List (Bytes × Bytes × Bytes)) (account key : Bytes)
    → writes_slot (xs ++ ys) account key
      ≡ (writes_slot xs account key || writes_slot ys account key)
unfolding writes_slot
writes_slot-append [] ys account key = refl
writes_slot-append ((a, k, value) ∷ xs) ys account key =
    ap (λ b. (bytes_equal a account && bytes_equal k key) || b)
      (writes_slot-append xs ys account key)
    ∙ or_assoc (bytes_equal a account && bytes_equal k key) (writes_slot xs account key)
        (writes_slot ys account key)

module _ (env : Env) where
  -- blocks in the order of `Apply`, each with its number
  unfoldable pub apply_all : State env → List (ℕ × Update env) → Option (State env)
  apply_all s [] = some s
  apply_all s ((block, update) ∷ blocks) = do s' ← apply env s block update; apply_all s' blocks

  -- the slots that the blocks write
  unfoldable pub all_slots : List (ℕ × Update env) → List (Bytes × Bytes × Bytes)
  all_slots [] = []
  all_slots ((block, update) ∷ blocks) = update.slots ++ all_slots blocks

  abbrev pub HasValues : ℕ × Update env → Type 0
  HasValues (block, update) = All (λ p. length p.2 ≡ 32) update.slots

  -- the hash does not collide on the slot and a field that the blocks write
  abbrev pub IsApartFrom : Bytes → Bytes → List (ℕ × Update env) → Type 0
  IsApartFrom account key blocks = All (λ b. IsApart env account key b.1) blocks

  module _ (lengths : HasLengths env) where
    apply_all-Views :
        (blocks : List (ℕ × Update env)) (s : State env) (f : Bytes → Bytes)
        → Views env s.trie f
        → All HasValues blocks
        → (s' : State env) × (f' : Bytes → Bytes) × (apply_all s blocks ≡ some s')
          × Views env s'.trie f'
          × ((a k : Bytes)
              → IsField (Field.storage k)
              → IsApartFrom a k blocks
              → f' (get_storage_key env.ipa a k)
                ≡ slot_value (f (get_storage_key env.ipa a k)) (all_slots blocks) a k)
          × ((a k : Bytes)
              → is_tracked s'.written_slots a k
                ≡ (writes_slot (all_slots blocks) a k || is_tracked s.written_slots a k))
    unfolding apply_all all_slots slot_value writes_slot
    apply_all-Views [] s f v h = (s, f, refl, v, λ a k sized apart. refl, λ a k. refl)
    apply_all-Views ((block, u) ∷ blocks) s f v h =
        let (s1, snapshot, e1, v1, _, _, tracked) = apply_lem lengths s f block u v h.0 in
        let (s', f', e, v', values, slots) = apply_all-Views blocks s1 (applied env f u) v1 h.1 in
        (
          s',
          f',
          rw e1 e,
          v',
          λ a k sized apart.
              values a k sized apart.1
              ∙ ap (λ before. slot_value before (all_slots blocks) a k)
                  (applied-slot env a k sized f u apart.0)
              ∙ sym (
                  slot_value-append u.slots (all_slots blocks) (f (get_storage_key env.ipa a k)) a
                    k),
          λ a k.
              slots a k
              ∙ ap (λ b. writes_slot (all_slots blocks) a k || b)
                  (ap (λ w. is_tracked w a k) tracked
                    ∙ is_tracked-track_all u.slots s.written_slots a k)
              ∙ or_regroup (writes_slot (all_slots blocks) a k) (writes_slot u.slots a k)
                  (is_tracked s.written_slots a k)
              ∙ ap (λ b. b || is_tracked s.written_slots a k)
                  (sym (writes_slot-append u.slots (all_slots blocks) a k)),
        )

    -- Blocks with 32-byte slot values are applied to a new state, one after the other, with no panic.
    -- Afterwards `GetStorage` of a slot returns the last value that the blocks have for it, and zero
    -- where they have none, if the hash does not collide on the slot and a field that the blocks write.
    pub apply_all-get_storage :
        (blocks : List (ℕ × Update env))
        → All HasValues blocks
        → (s : State env) × (apply_all (new_state env) blocks ≡ some s)
          × ((a k : Bytes)
              → IsField (Field.storage k)
              → IsApartFrom a k blocks
              → get_storage env s.trie a k ≡ some (slot_value (zeros 32) (all_slots blocks) a k))
    unfolding get_storage
    apply_all-get_storage blocks h =
        let (s, f, e, v, values, _) =
          apply_all-Views blocks (new_state env) (λ k. zeros 32) (empty-Views env) h in
        (
          s,
          e,
          λ a k sized apart.
              v.reads (get_storage_key env.ipa a k) (get_storage_key-IsKey env.ipa a k)
              ∙ ap some (values a k sized apart),
        )

  -- a tracked slot that `HasEmptyStorage` has found
  all_zero_found :
      {t : Trie env.ipa} {f : Bytes → Bytes}
      → Views env t f
      → (a : Bytes) (keys : List Bytes) → all_zero env t a keys ≡ some false
      → (k : Bytes) × (f (get_storage_key env.ipa a k) ≢ zeros 32)
  unfolding all_zero get_storage
  all_zero_found v a [] e = cc
  all_zero_found {f = f} v a (key ∷ keys) e =
      let place = get_storage_key env.ipa a key in
      let reads = v.reads place (get_storage_key-IsKey env.ipa a key) in
      elim (Bool-cases (bytes_equal (f place) (zeros 32))) [
        | inl zero_value ↦ all_zero_found v a keys (rw (reads, zero_value) at e)
        | inr nonzero ↦ (
          key,
          λ same.
              cc (ap (λ x. bytes_equal x (zeros 32)) same, bytes_equal_refl (zeros 32), nonzero),
        )
      ]

  -- After any blocks with 32-byte slot values, applied to a new state, `HasEmptyStorage` returns true
  -- only if `GetStorage` is zero at each slot of the address for which the hash does not collide with a
  -- field that the blocks write, and false only if there is a slot with another value.
  pub apply_all-has_empty_storage :
      HasLengths env
      → (blocks : List (ℕ × Update env)) (a : Bytes) → All HasValues blocks
      → (s : State env) × (b : Bool) × (apply_all (new_state env) blocks ≡ some s)
        × (has_empty_storage env s a ≡ some b)
        × (b ≡ true
            → (k : Bytes) → IsField (Field.storage k)
            → IsApartFrom a k blocks
            → get_storage env s.trie a k ≡ some (zeros 32))
        × (b ≡ false
            → (k value : Bytes) × (get_storage env s.trie a k ≡ some value) × (value ≢ zeros 32))
  unfolding get_storage has_empty_storage slots_of contains
  apply_all-has_empty_storage lengths blocks a h =
      let (s, f, e, v, values, tracked) =
        apply_all-Views lengths blocks (new_state env) (λ k. zeros 32) (empty-Views env) h in
      let (b, answer, exact) = has_empty_storage_iff s f a v in
      let reads =
        λ (k : Bytes). v.reads (get_storage_key env.ipa a k) (get_storage_key-IsKey env.ipa a k) in
      (
        s,
        b,
        e,
        answer,
        λ holds k sized apart.
            reads k
            ∙ ap some (elim (Bool-cases (writes_slot (all_slots blocks) a k)) [
              | inl here ↦ exact.0 holds k (tracked a k ∙ (rw here refl))
              | inr nowhere ↦
                  values a k sized apart
                  ∙ slot_value_unwritten (all_slots blocks) (zeros 32) a k nowhere
            ]),
        λ fails.
            let (k, value) =
              all_zero_found v a (slots_of s.written_slots a) (answer ∙ ap some fails) in
            (k, f (get_storage_key env.ipa a k), reads k, value),
      )
