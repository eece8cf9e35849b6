-- ===== src/Node/Vectors.antt =====
-- nodes.go: the vectors that the nodes commit to, and what the vectors of two leaves say of their
-- values.
use verkle_trie.Prelude.{
  ℕ, zero, suc, ◌==◌, subst, ◌+◌, ◌*◌, ◌/◌, ◌%◌, ◌<◌, ◌≡◌, ◌⊎◌, inl, inr, refl, ◌∙◌, sym, ap₂, Bool,
  true, false, ◌&&◌, some, [], ◌∷◌, Bytes, IsByte, All, length, get_elem?, get_elem?_lt, take, drop,
  update, bytes_equal, arith, Bool-cases, if◌then◌else◌,
}
use mathlib.Core.Option.{some-injective}
use verkle_trie.Commit
use verkle_trie.Commit.{Ipa, Value, Commitment}
use verkle_trie.Commit.Encoding.{IsStandard, halves-injective, new_value-injective}
use verkle_trie.Commit.Binding.{Break, and_then, to_value-at}
use verkle_trie.Node.{
  Node, nil, inner, leaf, Leaf, zero_bytes32, is_nil, is_used, half_values, child_values,
}
use verkle_trie.Node.Shape.{IsKey, read}
use verkle_trie.Node.Cache.{digest}
use verkle_trie.Node.Marks.{marked}
use verkle_trie.Node.Sized.{IsSized}

pub All-get_elem? :
    (P : ℕ → Type 0) (xs : Bytes) (i x : ℕ) → All P xs → get_elem? xs i ≡ some x → P x
All-get_elem? P [] i x h e = cc
All-get_elem? P (y ∷ ys) zero x h e = subst P (some-injective _ _ e) h.0
All-get_elem? P (y ∷ ys) (suc i) x h e = All-get_elem? P ys i x h.1 e

module _ {ipa : Ipa} where
  -- the vector that a leaf commits to, of which it writes four positions
  abbrev pub leaf_vector : Leaf ipa → ℕ → Value ipa
  leaf_vector l =
      update
        (update
          (update (update (λ _. Commit.zero_value ipa) 0 (Commit.new_value ipa 1)) 1
            (Commit.new_value_from_little_endian_bytes ipa l.stem))
          2 (Commit.to_value ipa (Commit.commit ipa (half_values ipa l 0))))
        3 (Commit.to_value ipa (Commit.commit ipa (half_values ipa l 1)))

  -- the vector that a node commits to
  abbrev pub vector : Node ipa → ℕ → Value ipa
  vector nil j = Commit.zero_value ipa
  vector (inner children c clean) j = child_values ipa children (λ i. digest (children i)) j
  vector (leaf l) j = leaf_vector l j

  -- the value of a node in its parent's vector
  abbrev pub entry : Node ipa → Value ipa
  entry n = if is_nil ipa n then Commit.zero_value ipa else Commit.to_value ipa (digest n)

  pub inner-entry :
      (ch : ℕ → Node ipa) (c : Commitment ipa) (b : Bool) (j : ℕ)
      → vector (inner ch c b) j ≡ entry (ch j)
  unfolding child_values
  inner-entry ch c b j = refl

  -- What is read and marked under the key is the same.
  abbrev pub SameAt : Node ipa → Node ipa → Bytes → ℕ → Type 0
  SameAt n m key depth =
      (read n key depth ≡ read m key depth) × (marked n key depth ≡ marked m key depth)

  read-leaf :
      (l : Leaf ipa) (k : Bytes) (s d : ℕ)
      → get_elem? k 31 ≡ some s
      → read (leaf l) k d
        ≡ (if bytes_equal (take 31 k) l.stem then some (l.values s) else some zero_bytes32)
  unfolding read
  read-leaf l k s d e = elim (Bool-cases (bytes_equal (take 31 k) l.stem)) [
    | inl own ↦ rw (own, e) refl
    | inr other ↦ rw (other) refl
  ]

  marked-leaf :
      (l : Leaf ipa) (k : Bytes) (s d : ℕ)
      → get_elem? k 31 ≡ some s
      → marked (leaf l) k d ≡ (bytes_equal (take 31 k) l.stem && is_used ipa l s)
  unfolding marked
  marked-leaf l k s d e = rw e refl

  -- leaves of one stem with the same value and the same bit at the key's suffix
  leaf-SameAt :
      (l m : Leaf ipa) (k : Bytes) (s d : ℕ)
      → get_elem? k 31 ≡ some s
      → l.stem ≡ m.stem
      → is_used ipa l s ≡ is_used ipa m s
      → l.values s ≡ m.values s
      → SameAt (leaf l) (leaf m) k d
  leaf-SameAt l m k s d e stem used values = (
    read-leaf l k s d e
        ∙ ap₂ (λ t v. if bytes_equal (take 31 k) t then some v else some zero_bytes32) stem values
        ∙ sym (read-leaf m k s d e),
    marked-leaf l k s d e
        ∙ ap₂ (λ t u. bytes_equal (take 31 k) t && u) stem used
        ∙ sym (marked-leaf m k s d e),
  )

  -- The two positions of a suffix in its half hold the value's halves.
  half-lower :
      (l : Leaf ipa) (s : ℕ)
      → half_values ipa l (s / 128) (2 * (s % 128)) ≡ (
          if is_used ipa l s
          then Commit.set_bit128 ipa
              (Commit.new_value_from_little_endian_bytes ipa (take 16 (l.values s)))
          else Commit.new_value_from_little_endian_bytes ipa (take 16 (l.values s)))
  unfolding half_values
  half-lower l s =
      let here : 128 * (s / 128) + 2 * (s % 128) / 2 ≡ s = omega arith in
      let even : (2 * (s % 128) % 2 == 0) ≡ true = ground arith in rw (even, here) refl

  half-upper :
      (l : Leaf ipa) (s : ℕ)
      → half_values ipa l (s / 128) (2 * (s % 128) + 1)
        ≡ Commit.new_value_from_little_endian_bytes ipa (drop 16 (l.values s))
  unfolding half_values
  half-upper l s =
      let here : 128 * (s / 128) + (2 * (s % 128) + 1) / 2 ≡ s = omega arith in
      let odd : ((2 * (s % 128) + 1) % 2 == 0) ≡ false = ground arith in rw (odd, here) refl

  module _ (standard : IsStandard ipa) where
    -- Leaves whose vectors agree wherever they are opened, or a break.
    module _ (l m : Leaf ipa)
        (at : (q : ℕ) → q < 256 → Break ipa ⊎ (leaf_vector l q ≡ leaf_vector m q)) where
      half-at :
          (h j : ℕ) → h < 2 → j < 256 → Break ipa ⊎ (half_values ipa l h j ≡ half_values ipa m h j)
      half-at zero j two small =
          and_then (at 2 (omega arith)) λ e. to_value-at standard _ _ j small e
      half-at (suc zero) j two small =
          and_then (at 3 (omega arith)) λ e. to_value-at standard _ _ j small e
      half-at (suc (suc h)) j two small = absurd (omega arith)

      pub leaves-SameAt :
          (k : Bytes) (d : ℕ)
          → length l.stem ≡ 31
          → length m.stem ≡ 31
          → IsSized (leaf l)
          → IsSized (leaf m)
          → IsKey k
          → All IsByte k
          → Break ipa ⊎ SameAt (leaf l) (leaf m) k d
      leaves-SameAt k d len len' h h' sized bytes =
          let (s, e) = get_elem?_lt k 31 (omega arith) in
          let small : s < 256 = All-get_elem? IsByte k 31 s bytes e in
          and_then (at 1 (omega arith)) λ stems.
            let stem =
              new_value-injective standard l.stem m.stem (omega arith) (omega arith) h.0 h'.0
                stems in
            and_then (half-at (s / 128) (2 * (s % 128)) (omega arith) (omega arith)) λ lower.
              and_then (half-at (s / 128) (2 * (s % 128) + 1) (omega arith) (omega arith)) λ upper.
                let (used, value) =
                  halves-injective standard (is_used ipa l s) (is_used ipa m s) (l.values s)
                    (m.values s) (h.1 s) (h'.1 s) (sym (half-lower l s) ∙ lower ∙ half-lower m s)
                    (sym (half-upper l s) ∙ upper ∙ half-upper m s) in
                inr (leaf-SameAt l m k s d e stem used value)
