-- ===== src/Node/Access.antt =====
-- `set` and `get` of nodes.go on nodes that stand where they belong: no panic, enough fuel, and the
-- update of one key.
use verkle_trie.Prelude.{
  ℕ, zero, suc, ◌≤◌, ◌<◌, ◌≡◌, refl, ◌∙◌, sym, ap, Bool, false, some, [], ◌∷◌, ◌++◌, ◌>>=◌, Bytes,
  length, get_elem?, get_elem?_lt, get_elem?-take, take, arith, take-suc, length-append,
  if◌then◌else◌, bytes_equal, bytes_equal-eq, ◌==◌, Bool-cases, inl, inr, update, ==_iff, subst,
}
use verkle_trie.Commit.{Ipa, Commitment}
use verkle_trie.Node.{
  Node, nil, inner, leaf, Leaf, zero_bytes32, is_nil, set, or_new_leaf, new_inner, leaf_set,
  next_depth,
}
use verkle_trie.Node.Shape.{
  IsKey, bytes_equal-key, IsPlaced, read, calls, calls-or_new_leaf, or_new_leaf-not_nil,
  or_new_leaf-IsPlaced, read-or_new_leaf, split_depth,
}

pub next_depth-length :
    (p : Bytes) (i : ℕ) → length p < 31 → next_depth (length p) ≡ length (p ++ i ∷ [])
next_depth-length p i h = omega (arith, length-append p (i ∷ []))

pub next_length : (p : Bytes) (i : ℕ) → length (p ++ i ∷ []) ≡ suc (length p)
next_length p i = omega (arith, length-append p (i ∷ []))

pub bytes_equal-apart :
    (k k' : Bytes) (d i j : ℕ)
    → get_elem? k d ≡ some i
    → get_elem? k' d ≡ some j
    → (i == j) ≡ false
    → bytes_equal k k' ≡ false
bytes_equal-apart k k' d i j e e' other = elim (Bool-cases (bytes_equal k k')) [
  | inr apart ↦ apart
  | inl same ↦
      let q : some i ≡ some j = sym e ∙ ap (λ b. get_elem? b d) (bytes_equal-eq k k' same) ∙ e' in
      ground arith
]

module _ {ipa : Ipa} where
  -- The node `n'` is `n` with `value` at `key`, as seen from the path `p`.
  pub record Sets (n : Node ipa) (p key value : Bytes) (n' : Node ipa) : Type 0 where
    pub not_nil : is_nil ipa n' ≡ false
    pub placed : IsPlaced n' p
    pub reads :
        (k : Bytes)
        → IsKey k
        → take (length p) k ≡ p
        → read n' k (length p) ≡ (if bytes_equal k key then some value else read n k (length p))

  -- the leaf of the key's own stem
  leaf_set-Sets :
      (l : Leaf ipa) (p key value : Bytes) (s : ℕ)
      → IsPlaced (leaf l) p
      → IsKey key
      → take 31 key ≡ l.stem
      → get_elem? key 31 ≡ some s
      → Sets (leaf l) p key value (leaf (leaf_set ipa l s value))
  unfolding leaf_set read
  leaf_set-Sets l p key value s h len own e = record {
    not_nil = refl;
    placed = h;
    reads = λ k len' on_path.
        let (t, e') = get_elem?_lt k 31 (omega arith) in
        rw (e', ◌>>=◌)
          (ground (arith, bytes_equal-key k key t s, ap (bytes_equal (take 31 k)) own));
  }

  pub read-inner :
      (children : ℕ → Node ipa) (c : Commitment ipa) (b : Bool) (k p : Bytes) (q : ℕ)
      → length p < 31
      → get_elem? k (length p) ≡ some q
      → read (inner children c b) k (length p) ≡ read (children q) k (length (p ++ q ∷ []))
  unfolding read
  read-inner children c b k p q h e = rw (e, ◌>>=◌, next_depth-length p q h)

  module _ (children : ℕ → Node ipa) (c : Commitment ipa) (b : Bool) (p key value : Bytes) (pos : ℕ)
      (next : Node ipa) (h : IsPlaced (inner children c b) p) (len : IsKey key)
      (e : get_elem? key (length p) ≡ some pos)
      (step : Sets (or_new_leaf ipa (children pos) key) (p ++ pos ∷ []) key value next) where
    -- the child that a key of the path leads to, after the step
    inner_reads :
        (k : Bytes) (q : ℕ)
        → IsKey k
        → take (length p) k ≡ p
        → get_elem? k (length p) ≡ some q
        → read (update children pos next q) k (length (p ++ q ∷ []))
          ≡ (if bytes_equal k key then some value else read (children q) k (length (p ++ q ∷ [])))
    inner_reads k q len' on_path' e' = elim (Bool-cases (q == pos)) [
      | inr other ↦ rw (other, bytes_equal-apart k key (length p) q pos e' e other)
      | inl same ↦
          let eq = (==_iff q pos).0 same in
          let below =
            take-suc (length p) k pos (e' ∙ ap some eq) ∙ ap (λ t. t ++ pos ∷ []) on_path' in
          rw (same, eq)
            (step.reads k len' (ap (λ t. take t k) (next_length p pos) ∙ below)
              ∙ ap (λ t. if bytes_equal k key then some value else t)
                  (read-or_new_leaf (children pos) key k (length (p ++ pos ∷ [])) len'))
    ]

    -- a step of `inner.set`, from what its child becomes
    inner_set-Sets :
        Sets (inner children c b) p key value (inner (update children pos next) c false)
    unfolding is_nil
    inner_set-Sets = record {
      not_nil = refl;
      placed = (
        h.0,
        λ j. elim (Bool-cases (j == pos)) [
          | inl same ↦
              rw same
                (subst (λ i. IsPlaced next (p ++ i ∷ [])) (sym ((==_iff j pos).0 same)) step.placed)
          | inr other ↦ rw other (h.1 j)
        ],
      );
      reads = λ k len' on_path'.
          let (q, e') = get_elem?_lt k (length p) (omega arith) in
          read-inner (update children pos next) c false k p q h.0 e'
          ∙ inner_reads k q len' on_path' e'
          ∙ ap (λ t. if bytes_equal k key then some value else t)
              (sym (read-inner children c b k p q h.0 e'));
    }

  -- below the fresh inner node of a split stands the old leaf alone
  split_reads :
      (l : Leaf ipa) (p k : Bytes) (pos q d : ℕ)
      → length p < 31
      → get_elem? l.stem (length p) ≡ some pos
      → get_elem? k (length p) ≡ some q
      → read (update (λ _. nil) pos (leaf l) q) k d ≡ read (leaf l) k (length p)
  unfolding read
  split_reads l p k pos q d short e e' = elim (Bool-cases (q == pos)) [
    | inl same ↦ rw same
    | inr other ↦ rw (
      other,
      bytes_equal-apart (take 31 k) l.stem (length p) q pos
          (get_elem?-take 31 (length p) k short ∙ e') e other,
    )
  ]

  split_inner-Sets :
      (l : Leaf ipa) (p key value : Bytes) (pos : ℕ) (n' : Node ipa)
      → length p < 31
      → get_elem? l.stem (length p) ≡ some pos
      → Sets (new_inner ipa (update (λ _. nil) pos (leaf l))) p key value n'
      → Sets (leaf l) p key value n'
  split_inner-Sets l p key value pos n' short e step = record {
    not_nil = step.not_nil;
    placed = step.placed;
    reads = λ k len' on_path'.
        let (q, e') = get_elem?_lt k (length p) (omega arith) in
        step.reads k len' on_path'
        ∙ ap (λ t. if bytes_equal k key then some value else t)
            (read-inner (update (λ _. nil) pos (leaf l)) _ _ k p q short e'
              ∙ split_reads l p k pos q _ short e e');
  }

  pub split_inner-IsPlaced :
      (l : Leaf ipa) (p : Bytes) (pos : ℕ)
      → IsPlaced (leaf l) p
      → length p < 31
      → get_elem? l.stem (length p) ≡ some pos
      → IsPlaced (new_inner ipa (update (λ _. nil) pos (leaf l))) p
  split_inner-IsPlaced l p pos h short e = (
    short,
    λ j. elim (Bool-cases (j == pos)) [
      | inr other ↦ rw other tt
      | inl same ↦
          rw (same, (==_iff j pos).0 same)
            (h.0, rw next_length (take-suc (length p) l.stem pos e ∙ ap (λ t. t ++ pos ∷ []) h.1))
    ],
  )

  -- `set` on a node that stands at the path of the key
  pub set-Sets :
      (fuel : ℕ) (n : Node ipa) (p key value : Bytes)
      → is_nil ipa n ≡ false
      → IsPlaced n p
      → IsKey key
      → take (length p) key ≡ p
      → calls n (length p) ≤ fuel
      → (n' : Node ipa) × (set ipa fuel n key (length p) value ≡ some n') × Sets n p key value n'
  unfolding set is_nil
  set-Sets fuel nil p key value there h len on_path enough = cc
  set-Sets zero (inner children c b) p key value there h len on_path enough = absurd (omega arith)
  set-Sets zero (leaf l) p key value there h len on_path enough = absurd (omega arith)
  set-Sets (suc fuel) (inner children c b) p key value there h len on_path enough =
      let (pos, e) = get_elem?_lt key (length p) (omega arith) in
      let below = next_length p pos ∙ refl in
      let child = children pos in
      let on_path' = take-suc (length p) key pos e ∙ ap (λ t. t ++ pos ∷ []) on_path in
      let (next, run, step) =
        set-Sets fuel (or_new_leaf ipa child key) (p ++ pos ∷ []) key value
          (or_new_leaf-not_nil child key)
          (or_new_leaf-IsPlaced child key (p ++ pos ∷ []) len (omega arith) (rw below on_path')
            (h.1 pos))
          len (rw below on_path')
          (omega (arith, calls-or_new_leaf child key (length (p ++ pos ∷ [])))) in
      (
        inner (update children pos next) c false,
        rw (e, ◌>>=◌, next_depth-length p pos h.0, run, ◌>>=◌),
        inner_set-Sets children c b p key value pos next h len e step,
      )
  set-Sets (suc fuel) (leaf l) p key value there h len on_path enough =
      elim (Bool-cases (bytes_equal (take 31 key) l.stem)) [
        | inl own ↦
            let (s, e) = get_elem?_lt key 31 (omega arith) in
            (
              leaf (leaf_set ipa l s value),
              rw (own, e, ◌>>=◌),
              leaf_set-Sets l p key value s h len (bytes_equal-eq _ _ own) e,
            )
        | inr other ↦
            let short = split_depth l key p h on_path other in
            let (pos, e) = get_elem?_lt l.stem (length p) (omega arith) in
            let (n', run, step) =
              set-Sets fuel (new_inner ipa (update (λ _. nil) pos (leaf l))) p key value refl
                (split_inner-IsPlaced l p pos h short e) len on_path (omega arith) in
            (n', rw (other, e, ◌>>=◌) run, split_inner-Sets l p key value pos n' short e step)
      ]

  -- a read of a key on a node that stands at its path ends in a value
  pub read-total :
      (n : Node ipa) (p key : Bytes)
      → IsPlaced n p
      → IsKey key
      → (v : Bytes) × (read n key (length p) ≡ some v)
  unfolding read
  read-total nil p key h len = (zero_bytes32, refl)
  read-total (inner children c b) p key h len =
      let (pos, e) = get_elem?_lt key (length p) (omega arith) in
      let (v, below) = read-total (children pos) (p ++ pos ∷ []) key (h.1 pos) len in
      (v, rw (e, ◌>>=◌, next_depth-length p pos h.0) below)
  read-total (leaf l) p key h len =
      let (s, e) = get_elem?_lt key 31 (omega arith) in
      elim (Bool-cases (bytes_equal (take 31 key) l.stem)) [
        | inl own ↦ (l.values s, rw (own, e))
        | inr other ↦ (zero_bytes32, rw other)
      ]
