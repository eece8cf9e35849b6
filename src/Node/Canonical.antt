-- ===== src/Node/Canonical.antt =====
-- nodes.go: the commitment of a compact node is a function of its written keys and its values.
use verkle_trie.Prelude.{
  ℕ, ◌+◌, ◌<◌, ◌≡◌, refl, ◌∙◌, sym, ap, fun_ext, ◌*◌, ◌/◌, Bool, true, ◌&&◌, some, [], ◌∷◌, ◌++◌,
  Bytes, length, get_elem?, get_elem?_lt, take, take-take, take-append_le, take_all, get_elem?-take,
  arith, bytes_equal, bytes_equal_refl, bytes_equal-eq,
}
use mathlib.Core.Option.{some-injective}
use verkle_trie.Commit
use verkle_trie.Commit.{Ipa, Commitment, Value}
use verkle_trie.Node.{Node, nil, inner, leaf, Leaf, is_nil, is_used, leaf_commitment, half_values}
use verkle_trie.Node.Shape.{IsKey, IsPlaced, read, leaf_depth}
use verkle_trie.Node.Access.{next_length, read-inner}
use verkle_trie.Node.Cache.{digest, child_values-congr}
use verkle_trie.Node.Marks.{
  marked, marked-inner, key_of, key_of-IsKey, stem-key_of, suffix-key_of, path-key_of,
  marked-key_of, get_elem?-append_last,
}
use verkle_trie.Node.Compact.{IsCompact, HasCompact, Holds, Forks}

-- a path of one byte more
path-split :
    (p k : Bytes) (j : ℕ)
    → take (length (p ++ j ∷ [])) k ≡ p ++ j ∷ []
    → (take (length p) k ≡ p) × (get_elem? k (length p) ≡ some j)
path-split p k j on_path =
    let longer = next_length p j in
    (
      sym (take-take (length p) (length (p ++ j ∷ [])) k (omega arith))
          ∙ ap (take (length p)) on_path
          ∙ take-append_le (length p) p (j ∷ []) (omega arith)
          ∙ take_all (length p) p (omega arith),
      sym (get_elem?-take (length (p ++ j ∷ [])) (length p) k (omega arith))
          ∙ ap (λ t. get_elem? t (length p)) on_path
          ∙ get_elem?-append_last p j,
    )

module _ {ipa : Ipa} where
  -- the same values and the same written keys on the path
  pub record Agree (n m : Node ipa) (p : Bytes) : Type 0 where
    pub reads :
        (k : Bytes) → IsKey k → take (length p) k ≡ p → read n k (length p) ≡ read m k (length p)
    pub marks :
        (k : Bytes)
        → IsKey k
        → take (length p) k ≡ p
        → marked n k (length p) ≡ marked m k (length p)

  pub Agree-sym : (n m : Node ipa) (p : Bytes) → Agree n m p → Agree m n p
  Agree-sym n m p a = record {
    reads = λ k len on_path. sym (a.reads k len on_path);
    marks = λ k len on_path. sym (a.marks k len on_path);
  }

  -- a written suffix of a leaf, as a key
  leaf-Holds :
      (l : Leaf ipa) (p : Bytes) (s : ℕ)
      → IsPlaced (leaf l) p
      → is_used ipa l s ≡ true
      → Holds (leaf l) p (key_of l s)
  leaf-Holds l p s h used = record {
    sized = key_of-IsKey l s h.0;
    on_path = path-key_of l s p h (leaf_depth l p h);
    written = marked-key_of l s (length p) h.0 ∙ used;
  }

  pub Holds-Agree : (n m : Node ipa) (p key : Bytes) → Agree n m p → Holds n p key → Holds m p key
  Holds-Agree n m p key a h = record {
    sized = h.sized;
    on_path = h.on_path;
    written = sym (a.marks key h.sized h.on_path) ∙ h.written;
  }

  -- a key that a leaf holds has the leaf's stem
  Holds-stem : (l : Leaf ipa) (p key : Bytes) → Holds (leaf l) p key → take 31 key ≡ l.stem
  unfolding marked
  Holds-stem l p key h =
      let len = h.sized in
      let (s, e) = get_elem?_lt key 31 (omega arith) in
      let both : (bytes_equal (take 31 key) l.stem && is_used ipa l s) ≡ true =
        rw (e) at h.written in
      bytes_equal-eq (take 31 key) l.stem (ground arith)

  pub Holds-nil : (p key : Bytes) → Holds {ipa = ipa} nil p key → ⊥
  unfolding marked
  Holds-nil p key h = let w = h.written in cc

  -- The values of a leaf are what is read under its stem.
  read-key_of :
      (l : Leaf ipa) (s d : ℕ)
      → length l.stem ≡ 31
      → read (leaf l) (key_of l s) d ≡ some (l.values s)
  unfolding read
  read-key_of l s d h = rw (stem-key_of l s h, bytes_equal_refl l.stem, suffix-key_of l s h) refl

  module _ (l m : Leaf ipa) (values : (s : ℕ) → l.values s ≡ m.values s)
      (marks : (s : ℕ) → is_used ipa l s ≡ is_used ipa m s) where
    half_values-congr : (h : ℕ) → half_values ipa l h ≡ half_values ipa m h
    unfolding half_values
    half_values-congr h = fun_ext λ j. rw (values (128 * h + j / 2), marks (128 * h + j / 2)) refl

    leaf_commitment-congr : l.stem ≡ m.stem → leaf_commitment ipa l ≡ leaf_commitment ipa m
    unfolding leaf_commitment
    leaf_commitment-congr stem = rw (stem, half_values-congr 0, half_values-congr 1) refl

  Agree-child :
      (ch ch' : ℕ → Node ipa) (c c' : Commitment ipa) (b b' : Bool) (p : Bytes) (j : ℕ)
      → length p < 31
      → Agree (inner ch c b) (inner ch' c' b') p
      → Agree (ch j) (ch' j) (p ++ j ∷ [])
  Agree-child ch ch' c c' b b' p j short a = record {
    reads = λ k len on_path.
        let (above, e) = path-split p k j on_path in
        sym (read-inner ch c b k p j short e)
        ∙ a.reads k len above
        ∙ read-inner ch' c' b' k p j short e;
    marks = λ k len on_path.
        let (above, e) = path-split p k j on_path in
        sym (marked-inner ch c b k p j short e)
        ∙ a.marks k len above
        ∙ marked-inner ch' c' b' k p j short e;
  }

  -- two leaves, one of them with a written suffix
  Agree-leaf :
      (l m : Leaf ipa) (p : Bytes) (s : ℕ)
      → IsPlaced (leaf l) p
      → IsPlaced (leaf m) p
      → is_used ipa l s ≡ true
      → Agree (leaf l) (leaf m) p
      → leaf_commitment ipa l ≡ leaf_commitment ipa m
  Agree-leaf l m p s h h' used a =
      let stem : l.stem ≡ m.stem =
        sym (stem-key_of l s h.0)
        ∙ Holds-stem m p (key_of l s)
            (Holds-Agree (leaf l) (leaf m) p (key_of l s) a (leaf-Holds l p s h used)) in
      let same = λ (t : ℕ). ap (λ x. x ++ t ∷ []) stem in
      let sized = λ (t : ℕ). key_of-IsKey l t h.0 in
      let on_path = λ (t : ℕ). path-key_of l t p h (leaf_depth l p h) in
      leaf_commitment-congr l m
        (λ t. some-injective _ _ (
          sym (read-key_of l t (length p) h.0)
          ∙ a.reads (key_of l t) (sized t) (on_path t)
          ∙ ap (λ k. read (leaf m) k (length p)) (same t)
          ∙ read-key_of m t (length p) h'.0))
        (λ t.
          sym (marked-key_of l t (length p) h.0)
          ∙ a.marks (key_of l t) (sized t) (on_path t)
          ∙ ap (λ k. marked (leaf m) k (length p)) (same t)
          ∙ marked-key_of m t (length p) h'.0)
        stem

  -- no leaf holds two stems
  leaf-not_fork : (l : Leaf ipa) (n : Node ipa) (p : Bytes) → Agree n (leaf l) p → Forks n p → ⊥
  leaf-not_fork l n p a (k, h, (k', h', other)) =
      let same =
        Holds-stem l p k' (Holds-Agree n (leaf l) p k' a h')
        ∙ sym (Holds-stem l p k (Holds-Agree n (leaf l) p k a h)) in
      cc (ap (λ t. bytes_equal t (take 31 k)) same, bytes_equal_refl (take 31 k))

  -- Two compact nodes that agree have the same commitment.
  pub Agree-digest :
      (n m : Node ipa) (p : Bytes)
      → IsPlaced n p
      → IsPlaced m p
      → IsCompact n p
      → IsCompact m p
      → Agree n m p
      → (is_nil ipa n ≡ is_nil ipa m) × (digest n ≡ digest m)
  unfolding is_nil digest
  Agree-digest nil nil p h h' w w' a = (refl, refl)
  Agree-digest nil (leaf m) p h h' w w' a = absurd (
      Holds-nil p _ (
        Holds-Agree (leaf m) nil p _ (Agree-sym nil (leaf m) p a)
          (leaf-Holds m p w'.1.0 h' w'.1.1)))
  Agree-digest (leaf l) nil p h h' w w' a =
      absurd (Holds-nil p _ (Holds-Agree (leaf l) nil p _ a (leaf-Holds l p w.1.0 h w.1.1)))
  Agree-digest nil (inner ch c b) p h h' w w' a = absurd (
      Holds-nil p w'.0.0
        (Holds-Agree (inner ch c b) nil p w'.0.0 (Agree-sym nil (inner ch c b) p a) w'.0.1))
  Agree-digest (inner ch c b) nil p h h' w w' a =
      absurd (Holds-nil p w.0.0 (Holds-Agree (inner ch c b) nil p w.0.0 a w.0.1))
  Agree-digest (leaf l) (leaf m) p h h' w w' a = (refl, Agree-leaf l m p w.1.0 h h' w.1.1 a)
  Agree-digest (leaf l) (inner ch c b) p h h' w w' a =
      absurd (leaf-not_fork l (inner ch c b) p (Agree-sym (leaf l) (inner ch c b) p a) w'.0)
  Agree-digest (inner ch c b) (leaf l) p h h' w w' a =
      absurd (leaf-not_fork l (inner ch c b) p a w.0)
  Agree-digest (inner ch c b) (inner ch' c' b') p h h' w w' a =
      let below = λ (j : ℕ).
        Agree-digest (ch j) (ch' j) (p ++ j ∷ []) (h.1 j) (h'.1 j) (w.1 j) (w'.1 j)
          (Agree-child ch ch' c c' b b' p j h.0 a) in
      (
        refl,
        ap (Commit.commit ipa)
            (child_values-congr ch ch' _ _ (λ j. (below j).0) (λ j. (below j).1)),
      )

  -- at the root, which may have one stem below it
  pub Agree-digest_inner :
      (ch ch' : ℕ → Node ipa) (c c' : Commitment ipa) (b b' : Bool)
      → IsPlaced (inner ch c b) []
      → IsPlaced (inner ch' c' b') []
      → HasCompact (inner ch c b) []
      → HasCompact (inner ch' c' b') []
      → Agree (inner ch c b) (inner ch' c' b') []
      → digest (inner ch c b) ≡ digest (inner ch' c' b')
  unfolding digest
  Agree-digest_inner ch ch' c c' b b' h h' w w' a =
      let below = λ (j : ℕ).
        Agree-digest (ch j) (ch' j) (j ∷ []) (h.1 j) (h'.1 j) (w j) (w' j)
          (Agree-child ch ch' c c' b b' [] j h.0 a) in
      ap (Commit.commit ipa) (child_values-congr ch ch' _ _ (λ j. (below j).0) (λ j. (below j).1))
