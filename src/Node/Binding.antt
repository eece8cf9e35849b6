-- ===== src/Node/Binding.antt =====
-- nodes.go: the commitment of a node binds what is read below it.
use verkle_trie.Prelude.{
  ℕ, ◌<◌, ◌≡◌, ◌⊎◌, inr, refl, ◌∙◌, sym, ap, Bool, true, some, [], ◌∷◌, ◌++◌, Bytes, IsByte, All,
  length, get_elem?, get_elem?_lt, arith,
}
use verkle_trie.Commit
use verkle_trie.Commit.{Ipa, Value, Commitment}
use verkle_trie.Commit.Encoding.{IsStandard}
use verkle_trie.Commit.Binding.{Break, and_then, equal-at, to_value-at, zero-at, one-break}
use verkle_trie.Node.{Node, nil, inner, leaf, Leaf, is_nil, leaf_commitment}
use verkle_trie.Node.Shape.{IsKey, IsPlaced, read}
use verkle_trie.Node.Access.{read-inner}
use verkle_trie.Node.Cache.{digest}
use verkle_trie.Node.Marks.{marked, marked-inner}
use verkle_trie.Node.Sized.{IsSized}
use verkle_trie.Node.Vectors.{
  All-get_elem?, leaf_vector, vector, entry, inner-entry, SameAt, leaves-SameAt,
}

module _ {ipa : Ipa} (standard : IsStandard ipa) where
  -- A node of the scalar 0 holds nothing, as a missing child.
  zero-SameAt :
      (n : Node ipa) (p k : Bytes)
      → IsPlaced n p
      → IsKey k
      → All IsByte k
      → entry n ≡ Commit.zero_value ipa
      → Break ipa ⊎ SameAt nil n k (length p)
  unfolding is_nil digest leaf_commitment Commit.new_value read marked
  zero-SameAt nil p k h sized bytes e = inr (refl, refl)
  zero-SameAt (leaf l) p k h sized bytes e =
      and_then (zero-at standard (leaf_vector l) 0 (omega arith) e)
        λ one. absurd (standard.one (ap (λ (v : Value ipa). v.scalar) one))
  zero-SameAt (inner ch c b) p k h sized bytes e =
      let (q, at) = get_elem?_lt k (length p) (omega arith) in
      let small : q < 256 = All-get_elem? IsByte k (length p) q bytes at in
      and_then (zero-at standard (vector (inner ch c b)) q small e) λ below.
        and_then
          (zero-SameAt (ch q) (p ++ q ∷ []) k (h.1 q) sized bytes
            (sym (inner-entry ch c b q) ∙ below))
          λ same. inr (
            same.0 ∙ sym (read-inner ch c b k p q h.0 at),
            same.1 ∙ sym (marked-inner ch c b k p q h.0 at),
          )

  -- the step to the children on the key's path
  inner-SameAt :
      (ch ch' : ℕ → Node ipa) (c c' : Commitment ipa) (b b' : Bool) (p k : Bytes) (q : ℕ)
      → length p < 31
      → get_elem? k (length p) ≡ some q
      → SameAt (ch q) (ch' q) k (length (p ++ q ∷ []))
      → SameAt (inner ch c b) (inner ch' c' b') k (length p)
  inner-SameAt ch ch' c c' b b' p k q short at same = (
    read-inner ch c b k p q short at ∙ same.0 ∙ sym (read-inner ch' c' b' k p q short at),
    marked-inner ch c b k p q short at ∙ same.1 ∙ sym (marked-inner ch' c' b' k p q short at),
  )

  -- no child has the scalar 1
  first_child : {A : Type 0} (n : Node ipa) → Commit.new_value ipa 1 ≡ entry n → Break ipa ⊎ A
  unfolding is_nil digest leaf_commitment Commit.new_value
  first_child nil e = absurd (standard.one (ap (λ (v : Value ipa). v.scalar) e))
  first_child (inner ch c b) e = one-break standard (vector (inner ch c b)) (sym e)
  first_child (leaf l) e = one-break standard (leaf_vector l) (sym e)

  -- No leaf has the scalar of an inner node, by the first position.
  leaf-inner :
      {A : Type 0} (l : Leaf ipa) (ch : ℕ → Node ipa) (c : Commitment ipa) (b : Bool)
      → entry (leaf l) ≡ entry (inner ch c b)
      → Break ipa ⊎ A
  unfolding is_nil digest leaf_commitment
  leaf-inner l ch c b e =
      and_then (to_value-at standard (leaf_vector l) (vector (inner ch c b)) 0 (omega arith) e)
        λ first. first_child (ch 0) (first ∙ inner-entry ch c b 0)

  -- Nodes of one value agree on each key of their path.
  pub entry-SameAt :
      (n m : Node ipa) (p k : Bytes)
      → IsPlaced n p
      → IsPlaced m p
      → IsSized n
      → IsSized m
      → IsKey k
      → All IsByte k
      → entry n ≡ entry m
      → Break ipa ⊎ SameAt n m k (length p)
  unfolding is_nil digest leaf_commitment
  entry-SameAt nil m p k h h' z z' sized bytes e = zero-SameAt m p k h' sized bytes (sym e)
  entry-SameAt (leaf l) nil p k h h' z z' sized bytes e =
      and_then (zero-SameAt (leaf l) p k h sized bytes e) λ same. inr (sym same.0, sym same.1)
  entry-SameAt (inner ch c b) nil p k h h' z z' sized bytes e =
      and_then (zero-SameAt (inner ch c b) p k h sized bytes e) λ same. inr (sym same.0, sym same.1)
  entry-SameAt (leaf l) (leaf m) p k h h' z z' sized bytes e =
      leaves-SameAt standard l m
        (λ q small. to_value-at standard (leaf_vector l) (leaf_vector m) q small e) k (length p) h.0
        h'.0 z z' sized bytes
  entry-SameAt (leaf l) (inner ch c b) p k h h' z z' sized bytes e = leaf-inner l ch c b e
  entry-SameAt (inner ch c b) (leaf l) p k h h' z z' sized bytes e = leaf-inner l ch c b (sym e)
  entry-SameAt (inner ch c b) (inner ch' c' b') p k h h' z z' sized bytes e =
      let (q, at) = get_elem?_lt k (length p) (omega arith) in
      let small : q < 256 = All-get_elem? IsByte k (length p) q bytes at in
      and_then (to_value-at standard (vector (inner ch c b)) (vector (inner ch' c' b')) q small e)
        λ below.
          and_then
            (entry-SameAt (ch q) (ch' q) (p ++ q ∷ []) k (h.1 q) (h'.1 q) (z q) (z' q) sized bytes
              (sym (inner-entry ch c b q) ∙ below ∙ inner-entry ch' c' b' q))
            λ same. inr (inner-SameAt ch ch' c c' b b' p k q h.0 at same)

  -- So do inner nodes of equal commitments, as roots.
  pub equal-SameAt :
      (ch ch' : ℕ → Node ipa) (c c' : Commitment ipa) (b b' : Bool) (k : Bytes)
      → IsPlaced (inner ch c b) []
      → IsPlaced (inner ch' c' b') []
      → IsSized (inner ch c b)
      → IsSized (inner ch' c' b')
      → IsKey k
      → All IsByte k
      → Commit.equal ipa (digest (inner ch c b)) (digest (inner ch' c' b')) ≡ true
      → Break ipa ⊎ SameAt (inner ch c b) (inner ch' c' b') k 0
  unfolding digest
  equal-SameAt ch ch' c c' b b' k h h' z z' sized bytes e =
      let (q, at) = get_elem?_lt k 0 (omega arith) in
      let small : q < 256 = All-get_elem? IsByte k 0 q bytes at in
      and_then (equal-at standard (vector (inner ch c b)) (vector (inner ch' c' b')) q small e)
        λ below.
          and_then
            (entry-SameAt (ch q) (ch' q) (q ∷ []) k (h.1 q) (h'.1 q) (z q) (z' q) sized bytes
              (sym (inner-entry ch c b q) ∙ below ∙ inner-entry ch' c' b' q))
            λ same. inr (inner-SameAt ch ch' c c' b b' [] k q h.0 at same)
