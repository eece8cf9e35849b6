-- ===== src/Trie/Binding.antt =====
-- trie.go: a commitment binds the keys that were written and their values.
use verkle_trie.Prelude.{
  ◌≡◌, ◌⊎◌, inr, refl, ◌∙◌, sym, ap, ap₂, true, false, some, List, [], ◌∷◌, Bytes, All,
  get_elem?_lt, arith,
}
use mathlib.Core.Option.{some-injective}
use verkle_trie.Commit
use verkle_trie.Commit.{Ipa, Commitment}
use verkle_trie.Commit.Encoding.{IsStandard, IsBytes32}
use verkle_trie.Commit.Binding.{Break, and_then}
use verkle_trie.Node.{Node, nil, inner, leaf, zero_bytes32, is_nil, empty_inner, child_values}
use verkle_trie.Node.Shape.{IsKey, IsPlaced, read}
use verkle_trie.Node.Cache.{digest}
use verkle_trie.Node.Marks.{marked, marked-empty_inner}
use verkle_trie.Node.Sized.{IsSized}
use verkle_trie.Node.Vectors.{SameAt}
use verkle_trie.Node.Binding.{equal-SameAt}
use verkle_trie.Trie.{Trie, empty, commit, Op, put, commits, run}
use verkle_trie.Trie.Laws.{IsRoot, contents_commitment, get-eq-read, commit_lem}
use verkle_trie.Trie.History.{latest, HasKey}
use verkle_trie.Trie.Commits.{writes, commit-run-writes}
use verkle_trie.Trie.Contents.{written, get-empty, empty-IsCanonical, run-IsCanonical}
use verkle_trie.Trie.Sized.{HasBytes32, run-IsSized}

pub HasBytes32-HasKey : (ops : List Op) → All HasBytes32 ops → All HasKey ops
HasBytes32-HasKey [] h = tt
HasBytes32-HasKey (put key value ∷ ops) h = (h.0.0.0, HasBytes32-HasKey ops h.1)
HasBytes32-HasKey (commits ∷ ops) h = (tt, HasBytes32-HasKey ops h.1)

writes-HasBytes32 : (ops : List Op) → All HasBytes32 ops → All HasBytes32 (writes ops)
unfolding writes
writes-HasBytes32 [] h = tt
writes-HasBytes32 (put key value ∷ ops) h = (h.0, writes-HasBytes32 ops h.1)
writes-HasBytes32 (commits ∷ ops) h = writes-HasBytes32 ops h.1

module _ {ipa : Ipa} where
  -- a root of the contents that a history leaves, with the commitment of its trie
  record Stores (t : Trie ipa) (ops : List Op) : Type 0 where
    node : Node ipa
    rooted : IsRoot node
    placed : IsPlaced node []
    sized : IsSized node
    commitment : (commit ipa t).0 ≡ contents_commitment node
    reads : (k : Bytes) → IsKey k → read node k 0 ≡ latest (some zero_bytes32) ops k
    marks : (k : Bytes) → IsKey k → marked node k 0 ≡ written ops k

  run-Stores :
      (ops : List Op) (t : Trie ipa)
      → All HasBytes32 ops
      → run ipa (empty ipa) ops ≡ some t
      → Stores t ops
  unfolding marked
  run-Stores ops t h e =
      let keys = HasBytes32-HasKey ops h in
      let (t1, u1, e1, f1, c) = commit-run-writes {ipa = ipa} ops keys in
      let (u, f, w, marks, reads) = run-IsCanonical ops (empty ipa) empty-IsCanonical keys in
      let same_t : t ≡ t1 = some-injective _ _ (sym e ∙ e1) in
      let same_u : u1 ≡ u = some-injective _ _ (sym f1 ∙ f) in
      record {
        node = u.root;
        rooted = w.valid.rooted;
        placed = w.valid.placed;
        sized = run-IsSized (writes ops) (empty ipa) u (writes-HasBytes32 ops h) tt f;
        commitment =
            ap (λ (x : Trie ipa). (commit ipa x).0) same_t
            ∙ c
            ∙ ap (λ (x : Trie ipa). (commit ipa x).0) same_u
            ∙ (commit_lem u w.valid).0;
        reads = λ k len.
            sym (get-eq-read u k) ∙ reads k len ∙ ap (λ x. latest x ops k) (get-empty ipa k);
        marks = λ k len. marks k len;
      }

module _ {ipa : Ipa} (standard : IsStandard ipa) where
  -- the empty trie commits as an inner node of no children
  empty_inner-SameAt : (k : Bytes) → IsBytes32 k → SameAt {ipa = ipa} nil (empty_inner ipa) k 0
  unfolding read is_nil
  empty_inner-SameAt k w =
      let (q, at) = get_elem?_lt k 0 (omega arith) in (rw at refl, sym (marked-empty_inner ipa k 0))

  -- The commitment of no children is the identity.
  identity-left :
      (q : Commitment ipa)
      → Commit.equal ipa (Commit.identity ipa) q ≡ true
      → Commit.equal ipa (digest (empty_inner ipa)) q ≡ true
  unfolding Commit.equal Commit.identity Commit.commit digest child_values is_nil
  identity-left q e = sym (standard.equal-identity_left q.point) ∙ e

  identity-right :
      (q : Commitment ipa)
      → Commit.equal ipa q (Commit.identity ipa) ≡ true
      → Commit.equal ipa q (digest (empty_inner ipa)) ≡ true
  unfolding Commit.equal Commit.identity Commit.commit digest child_values is_nil
  identity-right q e = sym (standard.equal-identity_right q.point) ∙ e

  -- Roots of equal commitments agree on each key.
  root-SameAt :
      (n m : Node ipa) (k : Bytes)
      → IsRoot n
      → IsRoot m
      → IsPlaced n []
      → IsPlaced m []
      → IsSized n
      → IsSized m
      → IsBytes32 k
      → Commit.equal ipa (contents_commitment n) (contents_commitment m) ≡ true
      → Break ipa ⊎ SameAt n m k 0
  unfolding contents_commitment
  root-SameAt nil nil k r r' h h' z z' w e = inr (refl, refl)
  root-SameAt (inner ch c b) (inner ch' c' b') k r r' h h' z z' w e =
      equal-SameAt standard ch ch' c c' b b' k h h' z z' w.0 w.1 e
  root-SameAt nil (inner ch c b) k r r' h h' z z' w e =
      let none_below = empty_inner-SameAt k w in
      and_then
        (equal-SameAt standard (λ _. nil) ch (Commit.zero_commitment ipa) c false b k
          (omega arith, λ j. tt) h' (λ j. tt) z' w.0 w.1 (identity-left _ e))
        λ same. inr (none_below.0 ∙ same.0, none_below.1 ∙ same.1)
  root-SameAt (inner ch c b) nil k r r' h h' z z' w e =
      let none_below = empty_inner-SameAt k w in
      and_then
        (equal-SameAt standard ch (λ _. nil) c (Commit.zero_commitment ipa) b false k h
          (omega arith, λ j. tt) z (λ j. tt) w.0 w.1 (identity-right _ e))
        λ same. inr (same.0 ∙ sym none_below.0, same.1 ∙ sym none_below.1)
  root-SameAt (leaf l) m k r r' h h' z z' w e = absurd r
  root-SameAt nil (leaf m) k r r' h h' z z' w e = absurd r'
  root-SameAt (inner ch c b) (leaf m) k r r' h h' z z' w e = absurd r'

  -- Where commitments and scalars are standard: two histories of writes of 32-byte keys and values
  -- and of commits, in any order, that run from the empty trie to tries whose commitments `Equal`
  -- takes for the same, have written the same keys and left the same value under each key, or they
  -- give a break of the commitment scheme: two vectors of one commitment, two commitments of one
  -- scalar, or a commitment of a scalar that marks a missing child or a leaf.
  pub commit-binding :
      (ops ops' : List Op) (t u : Trie ipa) (k : Bytes)
      → All HasBytes32 ops
      → All HasBytes32 ops'
      → IsBytes32 k
      → run ipa (empty ipa) ops ≡ some t
      → run ipa (empty ipa) ops' ≡ some u
      → Commit.equal ipa (commit ipa t).0 (commit ipa u).0 ≡ true
      → Break ipa
        ⊎ ((latest (some zero_bytes32) ops k ≡ latest (some zero_bytes32) ops' k)
            × (written ops k ≡ written ops' k))
  commit-binding ops ops' t u k h h' w e e' same =
      let a = run-Stores ops t h e in
      let b = run-Stores ops' u h' e' in
      let roots : Commit.equal ipa (contents_commitment a.node) (contents_commitment b.node)
          ≡ true =
        ap₂ (Commit.equal ipa) (sym a.commitment) (sym b.commitment) ∙ same in
      and_then
        (root-SameAt a.node b.node k a.rooted b.rooted a.placed b.placed a.sized b.sized w roots)
        λ here. inr (
          sym (a.reads k w.0) ∙ here.0 ∙ b.reads k w.0,
          sym (a.marks k w.0) ∙ here.1 ∙ b.marks k w.0,
        )
