-- ===== src/Node/Shape.antt =====
-- Where the nodes of nodes.go stand: every leaf below an inner node agrees with the path to it.
use verkle_trie.Prelude.{
  ℕ, ◌+◌, ◌-◌, ◌*◌, ◌≤◌, ◌<◌, ◌≡◌, refl, ◌∙◌, sym, ap, false, Option, some, [], ◌∷◌, ◌++◌, Bytes,
  length, get_elem?, get_elem?_lt, take, arith, take_all, take-suc, take-take, length-take,
  if◌then◌else◌, bytes_equal, bytes_equal-eq, bytes_equal_refl, ◌==◌, Bool-cases, inl, inr, ==_iff,
  ◌&&◌,
}
use verkle_trie.Commit.{Ipa}
use verkle_trie.Node.{Node, nil, inner, leaf, Leaf, zero_bytes32, is_nil, get, or_new_leaf}

-- 32 bytes, as a `Key` has
abbrev pub IsKey : Bytes → Type 0
IsKey key = length key ≡ 32

-- Two keys with one stem and one suffix are one key.
pub key_ext :
    (k k' : Bytes) (s : ℕ)
    → IsKey k
    → IsKey k'
    → take 31 k ≡ take 31 k'
    → get_elem? k 31 ≡ some s
    → get_elem? k' 31 ≡ some s
    → k ≡ k'
key_ext k k' s len len' stem e e' =
    sym (take_all 32 k (omega arith))
    ∙ take-suc 31 k s e
    ∙ ap (λ t. t ++ s ∷ []) stem
    ∙ sym (take-suc 31 k' s e')
    ∙ take_all 32 k' (omega arith)

-- Keys are compared by stem and suffix.
pub bytes_equal-key :
    (k k' : Bytes) (t s : ℕ)
    → IsKey k
    → IsKey k'
    → get_elem? k 31 ≡ some t
    → get_elem? k' 31 ≡ some s
    → bytes_equal k k' ≡ (bytes_equal (take 31 k) (take 31 k') && t == s)
bytes_equal-key k k' t s len len' e e' = elim (Bool-cases (bytes_equal k k')) [
  | inl same ↦
      let q = bytes_equal-eq k k' same in
      let suffix : some t ≡ some s = sym e ∙ ap (λ b. get_elem? b 31) q ∙ e' in
      rw same (ground (arith, ap (take 31) q, bytes_equal_refl (take 31 k')))
  | inr other ↦ elim (Bool-cases (bytes_equal (take 31 k) (take 31 k') && t == s)) [
    | inr no_match ↦ other ∙ sym no_match
    | inl both ↦
        let stems = bytes_equal-eq (take 31 k) (take 31 k') (ground arith) in
        let suffix : t ≡ s = ground arith in
        let q = key_ext k k' s len len' stems (e ∙ ap some suffix) e' in
        cc (ap (λ b. bytes_equal b k') q, bytes_equal_refl k')
  ]
]

module _ {ipa : Ipa} where
  -- A node at the path `p`: an inner node stands above the last byte of a stem, and a leaf's stem
  -- begins with the path.
  abbrev pub IsPlaced : Node ipa → Bytes → Type 0
  IsPlaced nil p = Unit
  IsPlaced (inner children c clean) p =
      (length p < 31) × ((j : ℕ) → IsPlaced (children j) (p ++ j ∷ []))
  IsPlaced (leaf l) p = (length l.stem ≡ 31) × (take (length p) l.stem ≡ p)

  -- A read through a reference that may be nil, as `Trie.Get` and `inner.get` make it.
  unfoldable pub read : Node ipa → Bytes → ℕ → Option Bytes
  unfolding is_nil get
  read n key depth = if is_nil ipa n then some zero_bytes32 else get ipa n key depth

  -- the calls of `set` on a node at the depth `d`, at most
  abbrev pub calls : Node ipa → ℕ → ℕ
  calls nil d = 0
  calls (inner children c clean) d = 2 * (31 - d)
  calls (leaf l) d = 2 * (31 - d) + 1

  pub calls-or_new_leaf :
      (n : Node ipa) (key : Bytes) (d : ℕ) → calls (or_new_leaf ipa n key) d ≤ 2 * (31 - d) + 1
  unfolding or_new_leaf
  calls-or_new_leaf nil key d = omega arith
  calls-or_new_leaf (inner ch c b) key d = omega arith
  calls-or_new_leaf (leaf l) key d = omega arith

  pub or_new_leaf-not_nil :
      (n : Node ipa) (key : Bytes) → is_nil ipa (or_new_leaf ipa n key) ≡ false
  unfolding or_new_leaf is_nil
  or_new_leaf-not_nil nil key = refl
  or_new_leaf-not_nil (inner ch c b) key = refl
  or_new_leaf-not_nil (leaf l) key = refl

  pub or_new_leaf-IsPlaced :
      (n : Node ipa) (key p : Bytes)
      → IsKey key
      → length p ≤ 31
      → take (length p) key ≡ p
      → IsPlaced n p
      → IsPlaced (or_new_leaf ipa n key) p
  unfolding or_new_leaf
  or_new_leaf-IsPlaced nil key p len short on_path h =
      (omega (arith, length-take 31 key), take-take (length p) 31 key short ∙ on_path)
  or_new_leaf-IsPlaced (inner ch c b) key p len short on_path h = h
  or_new_leaf-IsPlaced (leaf l) key p len short on_path h = h

  -- A fresh leaf reads as a missing one.
  pub read-or_new_leaf :
      (n : Node ipa) (key : Bytes) (k : Bytes) (d : ℕ)
      → IsKey k
      → read (or_new_leaf ipa n key) k d ≡ read n k d
  unfolding or_new_leaf read
  read-or_new_leaf nil key k d len =
      let (s, e) = get_elem?_lt k 31 (omega arith) in rw e (ground arith)
  read-or_new_leaf (inner ch c b) key k d len = refl
  read-or_new_leaf (leaf l) key k d len = refl

  pub leaf_depth : (l : Leaf ipa) (p : Bytes) → IsPlaced (leaf l) p → length p ≤ 31
  leaf_depth l p h = omega (arith, length-take (length p) l.stem, ap length h.1)

  -- A leaf of another stem than the key's ends above depth 31, where the split finds its byte.
  pub split_depth :
      (l : Leaf ipa) (key p : Bytes)
      → IsPlaced (leaf l) p
      → take (length p) key ≡ p
      → bytes_equal (take 31 key) l.stem ≡ false
      → length p < 31
  split_depth l key p h on_path other = elim (Bool-cases (length p == 31)) [
    | inr below ↦ ground (arith, leaf_depth l p h)
    | inl bottom ↦
        let e : length p ≡ 31 = (==_iff _ _).0 bottom in
        let same : take 31 key ≡ l.stem =
          (rw e at on_path) ∙ sym (rw e at h.1) ∙ take_all 31 l.stem (omega arith) in
        ground (arith, ap (λ t. bytes_equal t l.stem) same, bytes_equal_refl l.stem)
  ]
