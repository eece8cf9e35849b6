-- ===== src/Commit/Encoding.antt =====
-- value.go: what the scalars keep of the bytes they are made of, for the lengths that the trie
-- stores, from the documented behaviour of the scalar field of go-ipa.
use verkle_trie.Prelude.{
  ℕ, zero, suc, ◌-◌, ◌≤◌, ◌≡◌, ◌≢◌, refl, ◌∙◌, sym, ap, ap₂, Bool, true, false, List, [], ◌∷◌, ◌++◌,
  Bytes, IsByte, All, length, take, drop, get_or, copy, zeros, tabulate, arith, if◌then◌else◌,
  All-append, take-append-drop, length-take, length-drop, length-append, length-replicate,
  take-append_le, take_all,
}
use mathlib.Core.List.{reverse, reverse-cons, reverse-append, reverse-reverse}
use verkle_trie.Commit.{Ipa, Value, new_value_from_little_endian_bytes, set_bit128}

-- `Key` and `Value` of the trie, `[32]byte`
abbrev pub IsBytes32 : Bytes → Type 0
IsBytes32 bs = (length bs ≡ 32) × All IsByte bs

-- The field has more than 2 ^ 248 elements, `Bytes` is big-endian and canonical, 1 and 0 differ, and
-- the commitment of the zero vector is the identity, which `Equal` does not tell from it.
pub record IsStandard (ipa : Ipa) : Type 0 where
  pub same_fr : (x y : ipa.Fr) → Dec (x ≡ y)
  pub bytes-set_bytes_le :
      (bs : Bytes)
      → IsBytes32 bs
      → get_or bs 31 0 ≡ 0
      → ipa.bytes (ipa.set_bytes_le bs) ≡ reverse bs
  pub bytes-set_bytes :
      (bs : Bytes) → IsBytes32 bs → get_or bs 0 0 ≡ 0 → ipa.bytes (ipa.set_bytes bs) ≡ bs
  pub one : ipa.set_uint64 1 ≢ ipa.zero_fr
  pub equal-identity_left :
      (q : ipa.Element)
      → ipa.equal ipa.identity q ≡ ipa.equal (ipa.commit (tabulate 256 (λ _. ipa.zero_fr))) q
  pub equal-identity_right :
      (q : ipa.Element)
      → ipa.equal q ipa.identity ≡ ipa.equal q (ipa.commit (tabulate 256 (λ _. ipa.zero_fr)))

copy-zeros : (n : ℕ) (xs : Bytes) → length xs ≤ n → copy (zeros n) xs ≡ xs ++ zeros (n - length xs)
copy-zeros zero [] h = refl
copy-zeros zero (x ∷ xs) h = absurd (omega arith)
copy-zeros (suc n) [] h = ap zeros (let e : suc n ≡ suc n - 0 = omega arith in e)
copy-zeros (suc n) (x ∷ xs) h =
    let room : n - length xs ≡ suc n - suc (length xs) = omega arith in
    ap (λ t. x ∷ t) (copy-zeros n xs (omega arith) ∙ ap (λ k. xs ++ zeros k) room)

pub zeros-IsByte : (n : ℕ) → All IsByte (zeros n)
zeros-IsByte zero = tt
zeros-IsByte (suc n) = (omega arith, zeros-IsByte n)

module _ (P : ℕ → Type 0) where
  pub All-take : (n : ℕ) (xs : List ℕ) → All P xs → All P (take n xs)
  All-take zero xs h = tt
  All-take (suc n) [] h = tt
  All-take (suc n) (x ∷ xs) h = (h.0, All-take n xs h.1)

  pub All-drop : (n : ℕ) (xs : List ℕ) → All P xs → All P (drop n xs)
  All-drop zero xs h = h
  All-drop (suc n) [] h = tt
  All-drop (suc n) (x ∷ xs) h = All-drop n xs h.1

  All-reverse : (xs : List ℕ) → All P xs → All P (reverse xs)
  All-reverse [] h = tt
  All-reverse (x ∷ xs) h =
      rw (reverse-cons x xs) (All-append (reverse xs) (x ∷ []) P (All-reverse xs h.1) (h.0, tt))

pub copy-All : (P : ℕ → Type 0) (dst src : Bytes) → All P dst → All P src → All P (copy dst src)
copy-All P [] src h h' = tt
copy-All P (x ∷ dst) [] h h' = h
copy-All P (x ∷ dst) (y ∷ src) h h' = (h'.0, copy-All P dst src h.1 h'.1)

length-reverse : (xs : List ℕ) → length (reverse xs) ≡ length xs
length-reverse [] = refl
length-reverse (x ∷ xs) =
    rw (reverse-cons x xs) (omega (arith, length-append (reverse xs) (x ∷ []), length-reverse xs))

get_or-zeros : (n : ℕ) (xs : Bytes) (i : ℕ) → length xs ≤ i → get_or (xs ++ zeros n) i 0 ≡ 0
get_or-zeros zero [] i h = refl
get_or-zeros (suc n) [] zero h = refl
get_or-zeros (suc n) [] (suc i) h = get_or-zeros n [] i (omega arith)
get_or-zeros n (x ∷ xs) zero h = absurd (omega arith)
get_or-zeros n (x ∷ xs) (suc i) h = get_or-zeros n xs i (omega arith)

module _ {ipa : Ipa} (standard : IsStandard ipa) where
  -- up to 31 bytes, as the scalar made of them
  bytes-little_endian :
      (x : Bytes)
      → length x ≤ 31
      → All IsByte x
      → ipa.bytes (new_value_from_little_endian_bytes ipa x).scalar
        ≡ reverse (x ++ zeros (32 - length x))
  unfolding new_value_from_little_endian_bytes
  bytes-little_endian x short h =
      let nothing : ℕ = 0 in
      rw (copy-zeros 32 x (omega arith)) (
        standard.bytes-set_bytes_le (x ++ zeros (32 - length x))
          (
            omega (
              arith,
              length-append x (zeros (32 - length x)),
              length-replicate (32 - length x) nothing,
            ),
            All-append x _ IsByte h (zeros-IsByte (32 - length x)),
          )
          (get_or-zeros (32 - length x) x 31 short))

  -- Byte strings of one length, of at most 31 bytes, that give one scalar are equal.
  pub new_value-injective :
      (x y : Bytes)
      → length x ≤ 31
      → length y ≡ length x
      → All IsByte x
      → All IsByte y
      → new_value_from_little_endian_bytes ipa x ≡ new_value_from_little_endian_bytes ipa y
      → x ≡ y
  new_value-injective x y short same h h' e =
      let strings : reverse (x ++ zeros (32 - length x)) ≡ reverse (y ++ zeros (32 - length y)) =
        sym (bytes-little_endian x short h)
        ∙ ap (λ (v : Value ipa). ipa.bytes v.scalar) e
        ∙ bytes-little_endian y (omega arith) h' in
      let padded =
        sym (reverse-reverse (x ++ zeros (32 - length x)))
        ∙ ap reverse strings
        ∙ reverse-reverse (y ++ zeros (32 - length y)) in
      sym (take_all (length x) x (omega arith))
      ∙ sym (take-append_le (length x) x _ (omega arith))
      ∙ ap (take (length x)) padded
      ∙ take-append_le (length x) y _ (omega arith)
      ∙ take_all (length x) y (omega arith)

  -- the scalar of the lower half of a value, with the bit of a written suffix
  abbrev pub lower_value : Bool → Bytes → Value ipa
  lower_value used x =
      if used
      then set_bit128 ipa (new_value_from_little_endian_bytes ipa x)
      else new_value_from_little_endian_bytes ipa x

  bytes-lower_value :
      (used : Bool) (x : Bytes)
      → length x ≡ 16
      → All IsByte x
      → ipa.bytes (lower_value used x).scalar ≡ zeros 15 ++ (if used then 1 else 0) ∷ reverse x
  unfolding set_bit128
  bytes-lower_value used x len h =
      let plain : ipa.bytes (new_value_from_little_endian_bytes ipa x).scalar
          ≡ zeros 16 ++ reverse x =
        bytes-little_endian x (omega arith) h
        ∙ ap (λ n. reverse (x ++ zeros (32 - n))) len
        ∙ reverse-append x (zeros 16) in
      elim used
        as (λ u.
          ipa.bytes (lower_value u x).scalar ≡ zeros 15 ++ (if u then 1 else 0) ∷ reverse x) [
            | false ↦ plain
            | true ↦ rw plain (
                standard.bytes-set_bytes (zeros 15 ++ 1 ∷ reverse x)
                  (
                    omega (arith, length-reverse x),
                    All-append (zeros 15) (1 ∷ reverse x) IsByte (zeros-IsByte 15)
                        (omega arith, All-reverse IsByte x h),
                  )
                  refl)
          ]

  -- One scalar of 16 bytes and a bit has one string of bytes and one bit.
  pub lower_value-injective :
      (used used' : Bool) (x y : Bytes)
      → length x ≡ 16
      → length y ≡ 16
      → All IsByte x
      → All IsByte y
      → lower_value used x ≡ lower_value used' y
      → (used ≡ used') × (x ≡ y)
  lower_value-injective used used' x y len len' h h' e =
      let strings : zeros 15 ++ (if used then 1 else 0) ∷ reverse x
          ≡ zeros 15 ++ (if used' then 1 else 0) ∷ reverse y =
        sym (bytes-lower_value used x len h)
        ∙ ap (λ (v : Value ipa). ipa.bytes v.scalar) e
        ∙ bytes-lower_value used' y len' h' in
      (
        ground (arith, ap (λ t. get_or t 15 0) strings),
        sym (reverse-reverse x) ∙ ap (λ t. reverse (drop 16 t)) strings ∙ reverse-reverse y,
      )

  -- A value and its bit are determined by the two scalars that a leaf makes of them.
  pub halves-injective :
      (used used' : Bool) (v w : Bytes)
      → IsBytes32 v
      → IsBytes32 w
      → lower_value used (take 16 v) ≡ lower_value used' (take 16 w)
      → new_value_from_little_endian_bytes ipa (drop 16 v)
        ≡ new_value_from_little_endian_bytes ipa (drop 16 w)
      → (used ≡ used') × (v ≡ w)
  halves-injective used used' v w hv hw lower upper =
      let (bit, front) =
        lower_value-injective used used' (take 16 v) (take 16 w) (omega (arith, length-take 16 v))
          (omega (arith, length-take 16 w)) (All-take IsByte 16 v hv.1) (All-take IsByte 16 w hw.1)
          lower in
      let back =
        new_value-injective (drop 16 v) (drop 16 w) (omega (arith, length-drop 16 v))
          (omega (arith, length-drop 16 v, length-drop 16 w)) (All-drop IsByte 16 v hv.1)
          (All-drop IsByte 16 w hw.1) upper in
      (bit, sym (take-append-drop 16 v) ∙ ap₂ (λ a b. a ++ b) front back ∙ take-append-drop 16 w)
