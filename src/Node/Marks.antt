-- ===== src/Node/Marks.antt =====
-- nodes.go: which keys were written below a node, by the bitmaps of its leaves.
use verkle_trie.Prelude.{
  ℕ, ◌≤◌, ◌<◌, ◌≡◌, refl, ◌∙◌, sym, ap, Bool, false, ◌&&◌, ◌||◌, Option, none, some, [], ◌∷◌, ◌++◌,
  Bytes, length, get_elem?, get_elem?_lt, get_elem?-take, take, take_all, take-append_le, arith,
  length-append, bytes_equal, bytes_equal_refl, ◌==◌, Bool-cases, Option-cases, inl, inr, update,
}
use verkle_trie.Commit.{Ipa, Commitment}
use verkle_trie.Node.{
  Node, nil, inner, leaf, Leaf, is_used, or_new_leaf, new_inner, empty_inner, leaf_set, next_depth,
}
use verkle_trie.Node.Shape.{IsKey, IsPlaced, bytes_equal-key}
use verkle_trie.Node.Access.{next_depth-length, bytes_equal-apart}
use verkle_trie.Node.Used.{HasBytes, is_used-new_leaf, is_used-leaf_set}

-- a test on a byte that may be missing
abbrev pub on_byte : Option ℕ → (ℕ → Bool) → Bool
on_byte none test = false
on_byte (some b) test = test b

pub get_elem?-append_last : (xs : Bytes) (s : ℕ) → get_elem? (xs ++ s ∷ []) (length xs) ≡ some s
get_elem?-append_last [] s = refl
get_elem?-append_last (x ∷ xs) s = get_elem?-append_last xs s

module _ {ipa : Ipa} where
  -- the key was written
  unfoldable pub marked : Node ipa → Bytes → ℕ → Bool
  marked nil key depth = false
  marked (inner children c clean) key depth =
      on_byte (get_elem? key depth) (λ pos. marked (children pos) key (next_depth depth))
  marked (leaf l) key depth =
      on_byte (get_elem? key 31) (λ s. bytes_equal (take 31 key) l.stem && is_used ipa l s)

  pub marked-inner :
      (children : ℕ → Node ipa) (c : Commitment ipa) (b : Bool) (k p : Bytes) (q : ℕ)
      → length p < 31
      → get_elem? k (length p) ≡ some q
      → marked (inner children c b) k (length p) ≡ marked (children q) k (length (p ++ q ∷ []))
  unfolding marked
  marked-inner children c b k p q h e = rw (e, next_depth-length p q h) refl

  -- A fresh leaf marks nothing.
  pub marked-or_new_leaf :
      (n : Node ipa) (key k : Bytes) (d : ℕ)
      → IsKey k
      → marked (or_new_leaf ipa n key) k d ≡ marked n k d
  unfolding or_new_leaf marked
  marked-or_new_leaf nil key k d len =
      let (s, e) = get_elem?_lt k 31 (omega arith) in
      rw (e, is_used-new_leaf ipa key s) (ground arith)
  marked-or_new_leaf (inner ch c b) key k d len = refl
  marked-or_new_leaf (leaf l) key k d len = refl

  -- the key that a suffix of a leaf stands for
  abbrev pub key_of : Leaf ipa → ℕ → Bytes
  key_of l s = l.stem ++ s ∷ []

  pub key_of-IsKey : (l : Leaf ipa) (s : ℕ) → length l.stem ≡ 31 → IsKey (key_of l s)
  key_of-IsKey l s h = omega (arith, length-append l.stem (s ∷ []))

  pub stem-key_of : (l : Leaf ipa) (s : ℕ) → length l.stem ≡ 31 → take 31 (key_of l s) ≡ l.stem
  stem-key_of l s h =
      take-append_le 31 l.stem (s ∷ []) (omega arith) ∙ take_all 31 l.stem (omega arith)

  pub suffix-key_of :
      (l : Leaf ipa) (s : ℕ) → length l.stem ≡ 31 → get_elem? (key_of l s) 31 ≡ some s
  suffix-key_of l s h = ap (get_elem? (key_of l s)) (sym h) ∙ get_elem?-append_last l.stem s

  pub path-key_of :
      (l : Leaf ipa) (s : ℕ) (p : Bytes)
      → IsPlaced (leaf l) p
      → length p ≤ 31
      → take (length p) (key_of l s) ≡ p
  path-key_of l s p h short = take-append_le (length p) l.stem (s ∷ []) (omega arith) ∙ h.1

  pub marked-key_of :
      (l : Leaf ipa) (s d : ℕ)
      → length l.stem ≡ 31
      → marked (leaf l) (key_of l s) d ≡ is_used ipa l s
  unfolding marked
  marked-key_of l s d h = rw (suffix-key_of l s h, stem-key_of l s h, bytes_equal_refl l.stem) refl

  -- a write to the leaf of the key's stem
  pub marked-leaf_set :
      (l : Leaf ipa) (key value k : Bytes) (s d : ℕ)
      → HasBytes l
      → IsKey key
      → IsKey k
      → take 31 key ≡ l.stem
      → get_elem? key 31 ≡ some s
      → marked (leaf (leaf_set ipa l s value)) k d ≡ (bytes_equal k key || marked (leaf l) k d)
  unfolding marked
  marked-leaf_set l key value k s d bytes len len' own e =
      let (t, e') = get_elem?_lt k 31 (omega arith) in
      let stem : (leaf_set ipa l s value).stem ≡ l.stem = unfold leaf_set in refl in
      rw (e', is_used-leaf_set l s t value bytes, stem)
        (ground (arith, bytes_equal-key k key t s, ap (bytes_equal (take 31 k)) own))

  -- Below the fresh inner node of a split stands the old leaf alone.
  pub marked-split :
      (l : Leaf ipa) (k p : Bytes) (pos : ℕ)
      → length p < 31
      → IsKey k
      → get_elem? l.stem (length p) ≡ some pos
      → marked (new_inner ipa (update (λ _. nil) pos (leaf l))) k (length p)
        ≡ marked (leaf l) k (length p)
  unfolding marked
  marked-split l k p pos short len e =
      let (q, e') = get_elem?_lt k (length p) (omega arith) in
      let (t, e'') = get_elem?_lt k 31 (omega arith) in
      elim (Bool-cases (q == pos)) [
        | inl same ↦ rw (e', on_byte, same) refl
        | inr other ↦
            rw
              (
                e',
                on_byte,
                other,
                e'',
                bytes_equal-apart (take 31 k) l.stem (length p) q pos
                    (get_elem?-take 31 (length p) k short ∙ e') e other,
              )
              refl
      ]

-- A fresh inner node marks what nil does: nothing.
pub marked-empty_inner :
    (ipa : Ipa) (k : Bytes) (d : ℕ) → marked (empty_inner ipa) k d ≡ marked {ipa = ipa} nil k d
unfolding marked
marked-empty_inner ipa k d = elim (Option-cases (get_elem? k d)) [
  | inl e ↦ rw e refl
  | inr (q, e) ↦ rw e refl
]
