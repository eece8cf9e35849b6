-- ===== src/Node/Compact.antt =====
-- nodes.go: `set` builds no more nodes than the written keys need.
use verkle_trie.Prelude.{
  ℕ, zero, suc, ◌<◌, ◌≡◌, ◌⊎◌, refl, ◌∙◌, sym, ap, Bool, true, false, ◌||◌, some, >>=-eq-some, [],
  ◌∷◌, ◌++◌, Bytes, length, get_elem?, get_elem?_lt, take, take-suc, arith, bytes_equal,
  bytes_equal_refl, bytes_equal-eq, bytes_equal_comm, ◌==◌, ==_iff, ==_refl, Bool-cases, inl, inr,
  update, subst,
}
use mathlib.Core.Option.{some-injective}
use verkle_trie.Commit.{Ipa, Commitment}
use verkle_trie.Node.{
  Node, nil, inner, leaf, Leaf, is_used, set, new_leaf, or_new_leaf, new_inner, leaf_set,
  next_depth,
}
use verkle_trie.Node.Shape.{IsKey, IsPlaced, or_new_leaf-IsPlaced, split_depth}
use verkle_trie.Node.Access.{
  next_depth-length, next_length, bytes_equal-apart, split_inner-IsPlaced,
}
use verkle_trie.Node.Used.{HasBytes, leaf_set-HasBytes, is_used-leaf_set}
use verkle_trie.Node.Marks.{
  marked, marked-inner, marked-or_new_leaf, key_of, key_of-IsKey, stem-key_of, path-key_of,
  marked-key_of, marked-leaf_set, marked-split,
}

or_true : (b : Bool) → (b || true) ≡ true
or_true true = refl
or_true false = refl

module _ {ipa : Ipa} where
  -- a written key on the path
  pub record Holds (n : Node ipa) (p key : Bytes) : Type 0 where
    pub sized : IsKey key
    pub on_path : take (length p) key ≡ p
    pub written : marked n key (length p) ≡ true

  -- a written key of another stem than the given key
  abbrev pub Apart : Node ipa → Bytes → Bytes → Type 0
  Apart n p key = (k : Bytes) × Holds n p k × (bytes_equal (take 31 k) (take 31 key) ≡ false)

  -- two written keys of different stems
  abbrev pub Forks : Node ipa → Bytes → Type 0
  Forks n p = (key : Bytes) × Holds n p key × Apart n p key

  -- A leaf has a written suffix, and an inner node has two stems below it.
  abbrev pub IsCompact : Node ipa → Bytes → Type 0
  IsCompact nil p = Unit
  IsCompact (inner children c clean) p =
      Forks (inner children c clean) p × ((j : ℕ) → IsCompact (children j) (p ++ j ∷ []))
  IsCompact (leaf l) p = HasBytes l × ((s : ℕ) × (is_used ipa l s ≡ true))

  -- the children of an inner node are compact
  abbrev pub HasCompact : Node ipa → Bytes → Type 0
  HasCompact nil p = Unit
  HasCompact (inner children c clean) p = (j : ℕ) → IsCompact (children j) (p ++ j ∷ [])
  HasCompact (leaf l) p = HasBytes l

  -- What `set` for the key may start from: a leaf is compact, or new for the key's stem.
  abbrev pub IsReady : Node ipa → Bytes → Bytes → Type 0
  IsReady nil p key = Unit
  IsReady (inner children c clean) p key = HasCompact (inner children c clean) p
  IsReady (leaf l) p key =
      HasBytes l
      × (((s : ℕ) × (is_used ipa l s ≡ true)) ⊎ (bytes_equal (take 31 key) l.stem ≡ true))

  -- where the result of `set` for the key is compact
  abbrev pub WillBeCompact : Node ipa → Bytes → Bytes → Type 0
  WillBeCompact nil p key = ⊥
  WillBeCompact (inner children c clean) p key = Apart (inner children c clean) p key
  WillBeCompact (leaf l) p key = Unit

  pub record Grows (n : Node ipa) (p key : Bytes) (n' : Node ipa) : Type 0 where
    pub marks :
        (k : Bytes)
        → IsKey k
        → take (length p) k ≡ p
        → marked n' k (length p) ≡ (bytes_equal k key || marked n k (length p))
    pub children : HasCompact n' p
    pub compact : WillBeCompact n p key → IsCompact n' p

  -- of two stems one is not that of the key
  Forks-Apart : (n : Node ipa) (p key : Bytes) → Forks n p → Apart n p key
  Forks-Apart n p key (k, h, (k', h', other)) =
      elim (Bool-cases (bytes_equal (take 31 k) (take 31 key))) [
        | inr apart ↦ (k, h, apart)
        | inl same ↦ (
          k',
          h',
          subst (λ t. bytes_equal (take 31 k') t ≡ false) (bytes_equal-eq _ _ same) other,
        )
      ]

  or_new_leaf-IsReady :
      (n : Node ipa) (p key : Bytes) → IsCompact n p → IsReady (or_new_leaf ipa n key) p key
  unfolding or_new_leaf new_leaf
  or_new_leaf-IsReady nil p key h = (λ i. omega arith, inr (bytes_equal_refl (take 31 key)))
  or_new_leaf-IsReady (inner ch c b) p key h = h.1
  or_new_leaf-IsReady (leaf l) p key h = (h.0, inl h.1)

  or_new_leaf-WillBeCompact :
      (n : Node ipa) (p key : Bytes) → IsCompact n p → WillBeCompact (or_new_leaf ipa n key) p key
  unfolding or_new_leaf
  or_new_leaf-WillBeCompact nil p key h = tt
  or_new_leaf-WillBeCompact (inner ch c b) p key h = Forks-Apart (inner ch c b) p key h.0
  or_new_leaf-WillBeCompact (leaf l) p key h = tt

  -- the leaf of the key's own stem
  leaf_set-Grows :
      (l : Leaf ipa) (p key value : Bytes) (s : ℕ)
      → HasBytes l
      → IsKey key
      → take 31 key ≡ l.stem
      → get_elem? key 31 ≡ some s
      → Grows (leaf l) p key (leaf (leaf_set ipa l s value))
  leaf_set-Grows l p key value s bytes len own e =
      let bytes' = leaf_set-HasBytes l s value bytes in
      let set_bit : is_used ipa (leaf_set ipa l s value) s ≡ true =
        is_used-leaf_set l s s value bytes ∙ ap (λ b. b || is_used ipa l s) (==_refl s) in
      record {
        marks = λ k len' on_path. marked-leaf_set l key value k s (length p) bytes len len' own e;
        children = bytes';
        compact = λ _. (bytes', (s, set_bit));
      }

  module _ (children : ℕ → Node ipa) (c : Commitment ipa) (b : Bool) (p key : Bytes) (pos : ℕ)
      (next : Node ipa) (short : length p < 31) (len : IsKey key)
      (on_path : take (length p) key ≡ p) (e : get_elem? key (length p) ≡ some pos)
      (below : (j : ℕ) → IsCompact (children j) (p ++ j ∷ []))
      (step : Grows (or_new_leaf ipa (children pos) key) (p ++ pos ∷ []) key next) where
    inner_marks :
        (k : Bytes)
        → IsKey k
        → take (length p) k ≡ p
        → marked (inner (update children pos next) c false) k (length p)
          ≡ (bytes_equal k key || marked (inner children c b) k (length p))
    inner_marks k len' on_path' =
        let (q, e') = get_elem?_lt k (length p) (omega arith) in
        marked-inner (update children pos next) c false k p q short e'
        ∙ (elim (Bool-cases (q == pos)) [
          | inr other ↦ rw (other, bytes_equal-apart k key (length p) q pos e' e other) refl
          | inl same ↦
              let eq = (==_iff q pos).0 same in
              let below_path =
                take-suc (length p) k pos (e' ∙ ap some eq) ∙ ap (λ t. t ++ pos ∷ []) on_path' in
              rw (same, eq)
                (step.marks k len' (ap (λ t. take t k) (next_length p pos) ∙ below_path)
                  ∙ ap (λ t. bytes_equal k key || t)
                      (marked-or_new_leaf (children pos) key k (length (p ++ pos ∷ [])) len'))
        ])
        ∙ ap (λ t. bytes_equal k key || t) (sym (marked-inner children c b k p q short e'))

    inner_set-Grows : Grows (inner children c b) p key (inner (update children pos next) c false)
    inner_set-Grows =
        let next-IsCompact =
          step.compact (or_new_leaf-WillBeCompact (children pos) (p ++ pos ∷ []) key (below pos)) in
        let children' : (j : ℕ) → IsCompact (update children pos next j) (p ++ j ∷ []) = λ j.
          elim (Bool-cases (j == pos)) [
            | inl same ↦ rw same (
                subst (λ i. IsCompact next (p ++ i ∷ [])) (sym ((==_iff j pos).0 same))
                  next-IsCompact)
            | inr other ↦ rw other (below j)
          ] in
        record {
          marks = inner_marks;
          children = children';
          compact = λ (k, h, other).
              let here : marked (inner (update children pos next) c false) key (length p) ≡ true =
                inner_marks key len on_path
                ∙ ap (λ t. t || marked (inner children c b) key (length p))
                    (bytes_equal_refl key) in
              let there : marked (inner (update children pos next) c false) k (length p) ≡ true =
                inner_marks k h.sized h.on_path ∙ (rw h.written (or_true (bytes_equal k key))) in
              (
                (
                  key,
                  record { sized = len; on_path = on_path; written = here },
                  (k, record { sized = h.sized; on_path = h.on_path; written = there }, other),
                ),
                children',
              );
        }

  -- the fresh inner node of a split, above a leaf of another stem than the key's
  module _ (l : Leaf ipa) (p key : Bytes) (pos s : ℕ) (h : IsPlaced (leaf l) p)
      (short : length p < 31) (other : bytes_equal (take 31 key) l.stem ≡ false)
      (e : get_elem? l.stem (length p) ≡ some pos) (bytes : HasBytes l)
      (used : is_used ipa l s ≡ true) where
    abbrev split_node : Node ipa
    split_node = new_inner ipa (update (λ _. nil) pos (leaf l))

    split-Apart : Apart split_node p key
    split-Apart =
        let k = key_of l s in
        let len = key_of-IsKey l s h.0 in
        (
          k,
          record {
            sized = len;
            on_path = path-key_of l s p h (omega arith);
            written = marked-split l k p pos short len e ∙ marked-key_of l s (length p) h.0 ∙ used;
          },
          ap (λ t. bytes_equal t (take 31 key)) (stem-key_of l s h.0)
              ∙ bytes_equal_comm l.stem (take 31 key)
              ∙ other,
        )

    split-children : (j : ℕ) → IsCompact (update (λ _. nil) pos (leaf l) j) (p ++ j ∷ [])
    split-children j = elim (Bool-cases (j == pos)) [
      | inl same ↦ rw same (bytes, (s, used))
      | inr else_ ↦ rw else_ tt
    ]

    split-Grows : (n' : Node ipa) → Grows split_node p key n' → Grows (leaf l) p key n'
    split-Grows n' step = record {
      marks = λ k len on_path.
          step.marks k len on_path
          ∙ ap (λ t. bytes_equal k key || t) (marked-split l k p pos short len e);
      children = step.children;
      compact = λ _. step.compact split-Apart;
    }

  -- a fresh leaf that is not of the key's stem has no place here
  used_suffix :
      (l : Leaf ipa) (key : Bytes)
      → bytes_equal (take 31 key) l.stem ≡ false
      → ((s : ℕ) × (is_used ipa l s ≡ true)) ⊎ (bytes_equal (take 31 key) l.stem ≡ true)
      → (s : ℕ) × (is_used ipa l s ≡ true)
  used_suffix l key other (inl used) = used
  used_suffix l key other (inr own) = cc

  -- What `set` returns marks the key beside what was marked, and is compact where the node was.
  pub set-Grows :
      (fuel : ℕ) (n : Node ipa) (p key value : Bytes) (n' : Node ipa)
      → IsPlaced n p
      → IsReady n p key
      → IsKey key
      → take (length p) key ≡ p
      → set ipa fuel n key (length p) value ≡ some n'
      → Grows n p key n'
  unfolding set
  set-Grows zero n p key value n' h ready len on_path run = cc
  set-Grows (suc fuel) nil p key value n' h ready len on_path run = cc
  set-Grows (suc fuel) (inner children c b) p key value n' h ready len on_path run =
      let (pos, e, run1) = >>=-eq-some (get_elem? key (length p)) _ run in
      let child = children pos in
      let (next, below, end) =
        >>=-eq-some (set ipa fuel (or_new_leaf ipa child key) key (next_depth (length p)) value) _
          run1 in
      let on_path' =
        ap (λ t. take t key) (next_length p pos)
        ∙ take-suc (length p) key pos e
        ∙ ap (λ t. t ++ pos ∷ []) on_path in
      let step =
        set-Grows fuel (or_new_leaf ipa child key) (p ++ pos ∷ []) key value next
          (or_new_leaf-IsPlaced child key (p ++ pos ∷ []) len (omega (arith, next_length p pos))
            on_path' (h.1 pos))
          (or_new_leaf-IsReady child (p ++ pos ∷ []) key (ready pos)) len on_path'
          (ap (λ d. set ipa fuel (or_new_leaf ipa child key) key d value)
              (sym (next_depth-length p pos h.0))
            ∙ below) in
      subst (Grows (inner children c b) p key) (some-injective _ _ end)
        (inner_set-Grows children c b p key pos next h.0 len on_path e ready step)
  set-Grows (suc fuel) (leaf l) p key value n' h ready len on_path run =
      elim (Bool-cases (bytes_equal (take 31 key) l.stem)) [
        | inl own ↦
            let (s, e, end) = >>=-eq-some (get_elem? key 31) _ (rw own at run) in
            subst (Grows (leaf l) p key) (some-injective _ _ end)
              (leaf_set-Grows l p key value s ready.0 len (bytes_equal-eq _ _ own) e)
        | inr other ↦
            let short = split_depth l key p h on_path other in
            let (pos, e, run') = >>=-eq-some (get_elem? l.stem (length p)) _ (rw other at run) in
            let (s, used) = used_suffix l key other ready.1 in
            split-Grows l p key pos s h short other e ready.0 used n' (
              set-Grows fuel (new_inner ipa (update (λ _. nil) pos (leaf l))) p key value n'
                (split_inner-IsPlaced l p pos h short e)
                (split-children l p key pos s h short other e ready.0 used) len on_path run')
      ]
