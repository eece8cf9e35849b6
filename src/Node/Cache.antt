-- ===== src/Node/Cache.antt =====
-- The cached commitments of nodes.go: what they should be, and that no write leaves a stale one.
use verkle_trie.Prelude.{
  ℕ, zero, suc, ◌≡◌, refl, ◌∙◌, sym, ap, Bool, true, false, Option, some, ◌>>=◌, >>=-eq-some, Bytes,
  get_elem?, take, if◌then◌else◌, bytes_equal, Bool-cases, inl, inr, update, subst, fun_ext, ◌==◌,
}
use mathlib.Core.Option.{some-injective}
use verkle_trie.Commit
use verkle_trie.Commit.{Ipa, Commitment, Value, zero_commitment, zero_value}
use verkle_trie.Node.{
  Node, nil, inner, leaf, Leaf, is_nil, get, set, or_new_leaf, new_inner, leaf_get, leaf_commit,
  leaf_commitment, child_values, commit, next_depth,
}

module _ {ipa : Ipa} where
  -- the commitment of a node by its contents, with no cache
  unfoldable pub digest : Node ipa → Commitment ipa
  digest nil = zero_commitment ipa
  digest (inner children c clean) =
      Commit.commit ipa (child_values ipa children (λ j. digest (children j)))
  digest (leaf l) = leaf_commitment ipa l

  -- a clean cache holds the commitment of the contents
  abbrev pub IsCoherent : Node ipa → Type 0
  IsCoherent nil = Unit
  IsCoherent (inner children c clean) =
      (clean ≡ true → c ≡ digest (inner children c clean)) × ((j : ℕ) → IsCoherent (children j))
  IsCoherent (leaf l) = l.commitment_clean ≡ true → l.commitment ≡ leaf_commitment ipa l

  -- what is left of a node once it is committed
  pub record Commits (n : Node ipa) (r : Commitment ipa × Node ipa) : Type 0 where
    pub returns : r.0 ≡ digest n
    pub keeps : digest r.1 ≡ digest n
    pub coherent : IsCoherent r.1

  pub child_values-congr :
      (children children' : ℕ → Node ipa) (f g : ℕ → Commitment ipa)
      → ((j : ℕ) → is_nil ipa (children j) ≡ is_nil ipa (children' j))
      → ((j : ℕ) → f j ≡ g j)
      → child_values ipa children f ≡ child_values ipa children' g
  unfolding child_values
  child_values-congr children children' f g h e = fun_ext λ j. rw (h j, e j)

  -- what `leaf.commit` returns where its cache is not clean
  abbrev pub filled : Leaf ipa → Commitment ipa × Leaf ipa
  filled l = (
    leaf_commitment ipa l,
    record l { commitment = leaf_commitment ipa l; commitment_clean = true },
  )

  pub leaf_commit_clean :
      (l : Leaf ipa) → l.commitment_clean ≡ true → leaf_commit ipa l ≡ (l.commitment, l)
  unfolding leaf_commit
  leaf_commit_clean l h = ap (λ (b : Bool). if b then (l.commitment, l) else filled l) h

  pub leaf_commit_dirty : (l : Leaf ipa) → l.commitment_clean ≡ false → leaf_commit ipa l ≡ filled l
  unfolding leaf_commit
  leaf_commit_dirty l h = ap (λ (b : Bool). if b then (l.commitment, l) else filled l) h

  -- filling the cache leaves the leaf's contents alone
  leaf_commit-Commits :
      (l : Leaf ipa)
      → IsCoherent (leaf l)
      → Commits (leaf l) ((leaf_commit ipa l).0, leaf (leaf_commit ipa l).1)
  unfolding leaf_commitment digest
  leaf_commit-Commits l h = elim (Bool-cases l.commitment_clean) [
    | inl clean ↦
        subst (λ r. Commits (leaf l) (r.0, leaf r.1)) (sym (leaf_commit_clean l clean))
          (record { returns = h clean; keeps = refl; coherent = h })
    | inr dirty ↦
        subst (λ r. Commits (leaf l) (r.0, leaf r.1)) (sym (leaf_commit_dirty l dirty))
          (record { returns = refl; keeps = refl; coherent = λ _. refl })
  ]

  pub is_nil-commit : (n : Node ipa) → is_nil ipa (commit ipa n).1 ≡ is_nil ipa n
  unfolding commit is_nil
  is_nil-commit nil = refl
  is_nil-commit (inner children c true) = refl
  is_nil-commit (inner children c false) = refl
  is_nil-commit (leaf l) = refl

  pub commit-Commits : (n : Node ipa) → IsCoherent n → Commits n (commit ipa n)
  unfolding commit digest is_nil
  commit-Commits nil h = record { returns = refl; keeps = refl; coherent = tt }
  commit-Commits (inner children c true) h = record {
    returns = h.0 refl;
    keeps = refl;
    coherent = h;
  }
  commit-Commits (inner children c false) h =
      let below = λ (j : ℕ). commit-Commits (children j) (h.1 j) in
      let returned =
        ap (Commit.commit ipa)
          (child_values-congr children children _ _ (λ j. refl) (λ j. (below j).returns)) in
      let kept = ap (Commit.commit ipa) (
        child_values-congr (λ j. (commit ipa (children j)).1) children _ _
          (λ j. is_nil-commit (children j)) (λ j. (below j).keeps)) in
      record {
        returns = returned;
        keeps = kept;
        coherent = (λ _. returned ∙ sym kept, λ j. (below j).coherent);
      }
  commit-Commits (leaf l) h = leaf_commit-Commits l h

  -- `commit` changes caches alone: every read is as before
  get-leaf_commit :
      (l : Leaf ipa) (key : Bytes) → leaf_get ipa (leaf_commit ipa l).1 key ≡ leaf_get ipa l key
  unfolding leaf_get
  get-leaf_commit l key = elim (Bool-cases l.commitment_clean) [
    | inl clean ↦
        ap (λ (r : Commitment ipa × Leaf ipa). leaf_get ipa r.1 key) (leaf_commit_clean l clean)
    | inr dirty ↦
        ap (λ (r : Commitment ipa × Leaf ipa). leaf_get ipa r.1 key) (leaf_commit_dirty l dirty)
  ]

  pub stem-leaf_commit : (l : Leaf ipa) → (leaf_commit ipa l).1.stem ≡ l.stem
  stem-leaf_commit l = elim (Bool-cases l.commitment_clean) [
    | inl clean ↦ ap (λ (r : Commitment ipa × Leaf ipa). r.1.stem) (leaf_commit_clean l clean)
    | inr dirty ↦ ap (λ (r : Commitment ipa × Leaf ipa). r.1.stem) (leaf_commit_dirty l dirty)
  ]

  pub get-commit :
      (n : Node ipa) (key : Bytes) (depth : ℕ)
      → get ipa (commit ipa n).1 key depth ≡ get ipa n key depth
  unfolding commit get
  get-commit nil key depth = refl
  get-commit (inner children c true) key depth = refl
  get-commit (inner children c false) key depth =
      ap (λ (f : ℕ → Option Bytes). get_elem? key depth >>= f)
        (fun_ext λ pos.
          rw (is_nil-commit (children pos), get-commit (children pos) key (next_depth depth)))
  get-commit (leaf l) key depth = get-leaf_commit l key

  or_new_leaf-IsCoherent :
      (n : Node ipa) (key : Bytes) → IsCoherent n → IsCoherent (or_new_leaf ipa n key)
  unfolding or_new_leaf
  or_new_leaf-IsCoherent nil key h = λ e. cc
  or_new_leaf-IsCoherent (inner ch c b) key h = h
  or_new_leaf-IsCoherent (leaf l) key h = h

  update-IsCoherent :
      (children : ℕ → Node ipa) (pos : ℕ) (next : Node ipa)
      → ((j : ℕ) → IsCoherent (children j))
      → IsCoherent next
      → (j : ℕ) → IsCoherent (update children pos next j)
  update-IsCoherent children pos next h hn j = elim (Bool-cases (j == pos)) [
    | inl same ↦ rw same hn
    | inr other ↦ rw other (h j)
  ]

  -- A write leaves no stale cache, on whatever node and path.
  pub set-IsCoherent :
      (fuel : ℕ) (n : Node ipa) (key : Bytes) (depth : ℕ) (value : Bytes) (n' : Node ipa)
      → IsCoherent n
      → set ipa fuel n key depth value ≡ some n'
      → IsCoherent n'
  unfolding set
  set-IsCoherent zero n key depth value n' h e = cc
  set-IsCoherent (suc fuel) nil key depth value n' h e = cc
  set-IsCoherent (suc fuel) (inner children c b) key depth value n' h e =
      let (pos, _, e1) = >>=-eq-some (get_elem? key depth) _ e in
      let (next, run, e2) = >>=-eq-some _ _ e1 in
      let kept : IsCoherent (inner (update children pos next) c false) = (
        λ clean. cc,
        update-IsCoherent children pos next h.1 (
            set-IsCoherent fuel (or_new_leaf ipa (children pos) key) key (next_depth depth) value
              next (or_new_leaf-IsCoherent (children pos) key (h.1 pos)) run),
      ) in
      subst IsCoherent (some-injective _ _ e2) kept
  set-IsCoherent (suc fuel) (leaf l) key depth value n' h e =
      elim (Bool-cases (bytes_equal (take 31 key) l.stem)) [
        | inl own ↦
            let (s, _, e1) = >>=-eq-some (get_elem? key 31) _ (rw own at e) in
            subst IsCoherent (some-injective _ _ e1) (λ clean. cc)
        | inr other ↦
            let (pos, _, e1) = >>=-eq-some (get_elem? l.stem depth) _ (rw other at e) in
            set-IsCoherent fuel (new_inner ipa (update (λ _. nil) pos (leaf l))) key depth value n'
              (λ clean. cc, update-IsCoherent (λ _. nil) pos (leaf l) (λ _. tt) h) e1
      ]
