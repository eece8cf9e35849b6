-- ===== src/Embedding/Layout.antt =====
-- embedding.go: the places of an account do not overlap.
use native.Mathlib.Nat.{pow-suc}
use verkle_trie.Prelude.{
  ℕ, suc, ◌+◌, ◌-◌, ◌*◌, ◌/◌, ◌%◌, ◌^◌, ◌≤◌, ◌<◌, ◌≡◌, refl, ◌∙◌, sym, ap, false, [], ◌∷◌, Bytes,
  IsByte, be_value, All, get_or, length, arith, ltb, ltb→lt, lt→ltb, Bool-cases, inl, inr, ap₂, leb,
  if◌then◌else◌,
}
use verkle_trie.Embedding.{
  Place, basic_data_place, code_hash_place, code_chunk_place, storage_place,
}

mul_mono : (a b p : ℕ) → a ≤ b → a * p ≤ b * p
mul_mono a b p h = grind arith

be_value-lt : (acc : ℕ) (bs : Bytes) → All IsByte bs → be_value acc bs < (acc + 1) * 256 ^ length bs
unfolding be_value
be_value-lt acc [] h = omega arith
be_value-lt acc (b ∷ bs) h = rw (pow-suc 256 (length bs)) (
    omega (
      arith,
      be_value-lt (acc * 256 + b) bs h.1,
      mul_mono (acc * 256 + b + 1) ((acc + 1) * 256) (256 ^ length bs) (omega arith),
    ))

-- Byte strings of one length stand for different numbers.
be_value-injective :
    (a b : ℕ) (xs ys : Bytes)
    → All IsByte xs
    → All IsByte ys
    → length xs ≡ length ys
    → be_value a xs ≡ be_value b ys
    → (a ≡ b) × (xs ≡ ys)
unfolding be_value
be_value-injective a b [] [] hx hy len e = (e, refl)
be_value-injective a b [] (y ∷ ys) hx hy len e = absurd (omega arith)
be_value-injective a b (x ∷ xs) [] hx hy len e = absurd (omega arith)
be_value-injective a b (x ∷ xs) (y ∷ ys) hx hy len e =
    let (h, t) = be_value-injective (a * 256 + x) (b * 256 + y) xs ys hx.1 hy.1 (omega arith) e in
    let head : x ≡ y = omega arith in (omega arith, ground arith)

last_byte :
    (acc : ℕ) (bs : Bytes)
    → All IsByte bs
    → 0 < length bs
    → get_or bs (length bs - 1) 0 ≡ be_value acc bs % 256
unfolding be_value
last_byte acc [] h pos = absurd (omega arith)
last_byte acc (b ∷ []) h pos = omega arith
last_byte acc (b ∷ c ∷ bs) h pos =
    let tail = last_byte (acc * 256 + b) (c ∷ bs) h.1 (omega arith) in
    let n = length bs in
    let before : suc (suc n) - 1 ≡ suc n = omega arith in
    let after : n ≡ suc n - 1 = omega arith in
    ap (λ k. get_or (b ∷ c ∷ bs) k 0) before ∙ ap (λ k. get_or (c ∷ bs) k 0) after ∙ tail

-- A field of an account.
pub data Field : Type 0 where
  basic_data code_hash : Field
  code_chunk : ℕ → Field
  storage : Bytes → Field

unfoldable pub place : Field → Place
unfolding basic_data_place code_hash_place code_chunk_place storage_place
place basic_data = basic_data_place
place code_hash = code_hash_place
place (code_chunk n) = code_chunk_place n
place (storage key) = storage_place key

-- a chunk number is a 64-bit number, a storage key has 32 bytes
abbrev pub IsField : Field → Type 0
IsField basic_data = Unit
IsField code_hash = Unit
IsField (code_chunk n) = n < 2 ^ 64
IsField (storage key) = (length key ≡ 32) × All IsByte key

abbrev place_at : ℕ → ℕ → Place
place_at t i = record { tree_index = t; sub_index = i }

-- The place of a storage slot, by the number of its key: nothing wraps.
storage_place_low :
    (key : Bytes) → be_value 0 key < 64 → storage_place key ≡ place_at 0 (64 + be_value 0 key)
unfolding storage_place
storage_place_low key low = rw (lt→ltb (be_value 0 key) 64 low) (ap (place_at 0) (omega arith))

storage_place_high :
    (key : Bytes)
    → length key ≡ 32
    → All IsByte key
    → ltb (be_value 0 key) 64 ≡ false
    → storage_place key ≡ place_at (be_value 0 key / 256 + 2 ^ 240) (be_value 0 key % 256)
unfolding storage_place
storage_place_high key len h high =
    let bound : be_value 0 key < 2 ^ 256 = rw len at (be_value-lt 0 key h) in
    rw high (ap₂ place_at (omega arith) (last_byte 0 key h (omega arith)))

code_chunk_place_lem :
    (n : ℕ) → n < 2 ^ 64 → code_chunk_place n ≡ place_at ((128 + n) / 256) ((128 + n) % 256)
unfolding code_chunk_place
code_chunk_place_lem n h = ap₂ place_at (omega arith) (omega arith)

-- A place tells the field: 0 and 1 in the first group are the header fields, 64 to 127 the first
-- storage slots, 128 on the code, and the groups from 2 ^ 240 on the other slots.
unfoldable pub field_number : Place → ℕ × ℕ
field_number p =
    if leb (2 ^ 240) p.tree_index
    then (3, (p.tree_index - 2 ^ 240) * 256 + p.sub_index)
    else if leb 128 (p.tree_index * 256 + p.sub_index)
    then (2, p.tree_index * 256 + p.sub_index - 128)
    else if leb 64 p.sub_index
    then (3, p.sub_index - 64)
    else (p.sub_index, 0)

-- the number of a field, within its kind
unfoldable pub numbered : Field → ℕ × ℕ
numbered basic_data = (0, 0)
numbered code_hash = (1, 0)
numbered (code_chunk n) = (2, n)
numbered (storage key) = (3, be_value 0 key)

field_number-chunk :
    (n : ℕ) → n < 2 ^ 64 → field_number (place_at ((128 + n) / 256) ((128 + n) % 256)) ≡ (2, n)
unfolding field_number
field_number-chunk n h = ground arith

field_number-low : (n : ℕ) → n < 64 → field_number (place_at 0 (64 + n)) ≡ (3, n)
unfolding field_number
field_number-low n h = ground arith

field_number-high : (n : ℕ) → field_number (place_at (n / 256 + 2 ^ 240) (n % 256)) ≡ (3, n)
unfolding field_number
field_number-high n = ground arith

field_number-place : (f : Field) → IsField f → field_number (place f) ≡ numbered f
unfolding place numbered
field_number-place basic_data h = unfold field_number in refl
field_number-place code_hash h = unfold field_number in refl
field_number-place (code_chunk n) h =
    ap field_number (code_chunk_place_lem n h) ∙ field_number-chunk n h
field_number-place (storage key) h = elim (Bool-cases (ltb (be_value 0 key) 64)) [
  | inl low ↦
      let small = ltb→lt _ _ low in
      ap field_number (storage_place_low key small) ∙ field_number-low (be_value 0 key) small
  | inr high ↦
      ap field_number (storage_place_high key h.0 h.1 high) ∙ field_number-high (be_value 0 key)
]

numbered-injective : (f g : Field) → IsField f → IsField g → numbered f ≡ numbered g → f ≡ g
unfolding numbered
numbered-injective (storage key) (storage key') hf hg e =
    ap storage
      (be_value-injective 0 0 key key' hf.1 hg.1 (hf.0 ∙ sym hg.0) (ap (λ (p : ℕ × ℕ). p.1) e)).1
numbered-injective basic_data basic_data hf hg e = refl
numbered-injective code_hash code_hash hf hg e = refl
numbered-injective (code_chunk n) (code_chunk m) hf hg e = ap code_chunk (ap (λ (p : ℕ × ℕ). p.1) e)
numbered-injective f g hf hg e = absurd (ground arith)

-- Different fields of an account stand at different places: the header fields, the code chunks of
-- 64-bit numbers and the storage slots of 32-byte keys never share a tree index and a sub-index.
pub place-injective : (f g : Field) → IsField f → IsField g → place f ≡ place g → f ≡ g
place-injective f g hf hg e =
    numbered-injective f g hf hg
      (sym (field_number-place f hf) ∙ ap field_number e ∙ field_number-place g hg)
