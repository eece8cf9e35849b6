-- ===== src/Trie/Laws.antt =====
-- trie.go: `Get`, `Set` and `Commit` on valid tries.
use verkle_trie.Prelude.{
  ℕ, suc, zero, ◌≤◌, ◌≡◌, refl, ◌∙◌, sym, ap, true, false, some, [], ◌∷◌, ◌++◌, Bytes, arith,
  if◌then◌else◌, bytes_equal, get_elem?_lt, get_elem?, subst, >>=-eq-some, update,
}
use mathlib.Core.Option.{some-injective}
use verkle_trie.Commit
use verkle_trie.Commit.{Ipa, Commitment}
use verkle_trie.Node.{Node, nil, inner, leaf, is_nil, empty_inner, zero_bytes32}
use verkle_trie.Node
use verkle_trie.Node.Shape.{IsKey, IsPlaced, read, calls}
use verkle_trie.Node.Access.{set-Sets, read-total}
use verkle_trie.Node.Cache.{
  digest, IsCoherent, commit-Commits, set-IsCoherent, is_nil-commit, get-commit, stem-leaf_commit,
}
use verkle_trie.Trie.{Trie, empty, get, set, commit}

module _ {ipa : Ipa} where
  -- The root is nil or an inner node, every node stands where its keys lead, and no cache is stale.
  abbrev pub IsRoot : Node ipa → Type 0
  IsRoot nil = Unit
  IsRoot (inner ch c b) = Unit
  IsRoot (leaf l) = ⊥

  pub record IsValid (t : Trie ipa) : Type 0 where
    pub rooted : IsRoot t.root
    pub placed : IsPlaced t.root []
    pub coherent : IsCoherent t.root

  pub empty-IsValid : IsValid (empty ipa)
  empty-IsValid = record { rooted = tt; placed = tt; coherent = tt }

  -- the commitment of the stored values and their shape, with no cache
  unfoldable pub contents_commitment : Node ipa → Commitment ipa
  contents_commitment nil = Commit.identity ipa
  contents_commitment (inner ch c b) = digest (inner ch c b)
  contents_commitment (leaf l) = digest (leaf l)

  -- the root that `Set` starts from
  abbrev pub start : Node ipa → Node ipa
  start n = if is_nil ipa n then empty_inner ipa else n

  pub record Starts (n : Node ipa) : Type 0 where
    pub not_nil : is_nil ipa (start n) ≡ false
    pub placed : IsPlaced (start n) []
    coherent : IsCoherent (start n)
    reads : (k : Bytes) → IsKey k → read (start n) k 0 ≡ read n k 0
    pub within : calls (start n) 0 ≤ 62

  pub start-Starts : (n : Node ipa) → IsRoot n → IsPlaced n [] → IsCoherent n → Starts n
  unfolding is_nil read Node.get
  start-Starts nil r p c = record {
    not_nil = refl;
    placed = (omega arith, λ j. tt);
    coherent = (λ e. cc, λ j. tt);
    reads = λ k len. let (x, e) = get_elem?_lt k 0 (omega arith) in rw e refl;
    within = omega arith;
  }
  start-Starts (inner ch b c) r p h = record {
    not_nil = refl;
    placed = p;
    coherent = h;
    reads = λ k len. refl;
    within = omega arith;
  }
  start-Starts (leaf l) r p h = absurd r

  abbrev no_children : ℕ → Node ipa
  no_children _ = nil

  -- `inner.set` returns its inner node
  set_inner-IsRoot :
      (fuel : ℕ) (n : Node ipa) (key : Bytes) (depth : ℕ) (value : Bytes) (n' : Node ipa)
      → IsRoot n
      → Node.set ipa fuel (start n) key depth value ≡ some n'
      → IsRoot n'
  unfolding Node.set is_nil
  set_inner-IsRoot zero nil key depth value n' r e = cc
  set_inner-IsRoot zero (inner ch c b) key depth value n' r e = cc
  set_inner-IsRoot (suc fuel) nil key depth value n' r e =
      let (pos, _, e1) = >>=-eq-some (get_elem? key depth) _ e in
      let (next, _, e2) =
        >>=-eq-some
          (Node.set ipa fuel (Node.or_new_leaf ipa (no_children pos) key) key
            (Node.next_depth depth) value)
          _ e1 in
      subst IsRoot
        (some-injective (inner (update no_children pos next) (Commit.zero_commitment ipa) false) n'
          e2)
        tt
  set_inner-IsRoot (suc fuel) (inner ch c b) key depth value n' r e =
      let (pos, _, e1) = >>=-eq-some (get_elem? key depth) _ e in
      let (next, _, e2) =
        >>=-eq-some
          (Node.set ipa fuel (Node.or_new_leaf ipa (ch pos) key) key (Node.next_depth depth) value)
          _ e1 in
      subst IsRoot (some-injective (inner (update ch pos next) c false) n' e2) tt
  set_inner-IsRoot zero (leaf l) key depth value n' r e = absurd r
  set_inner-IsRoot (suc fuel) (leaf l) key depth value n' r e = absurd r

  pub get-eq-read : (t : Trie ipa) (k : Bytes) → get ipa t k ≡ read t.root k 0
  unfolding get read
  get-eq-read t k = refl

  -- `Set` of a 32-byte key on a valid trie does not panic, within the fuel, and leaves a valid trie.
  -- `Get` of any 32-byte key then returns the value if it is that key, and what it returned before
  -- if not.
  pub get-set :
      (t : Trie ipa) (key value : Bytes)
      → IsValid t
      → IsKey key
      → (t' : Trie ipa) × (set ipa t key value ≡ some t')
        × IsValid t'
        × ((k : Bytes)
            → IsKey k
            → get ipa t' k ≡ (if bytes_equal k key then some value else get ipa t k))
  unfolding set
  get-set t key value v len =
      let s = start-Starts t.root v.rooted v.placed v.coherent in
      let (n, run, sets) =
        set-Sets 64 (start t.root) [] key value s.not_nil s.placed len refl (omega arith) in
      (
        record { root = n },
        rw run,
        record {
          rooted = set_inner-IsRoot 64 t.root key 0 value n v.rooted run;
          placed = sets.placed;
          coherent = set-IsCoherent 64 (start t.root) key 0 value n s.coherent run;
        },
        λ k len'.
            get-eq-read (record { root = n }) k
            ∙ sets.reads k len' refl
            ∙ ap (λ r. if bytes_equal k key then some value else r)
                (s.reads k len' ∙ sym (get-eq-read t k)),
      )

  -- `Get` of a 32-byte key on a valid trie does not panic.
  pub get-total :
      (t : Trie ipa) (key : Bytes) → IsValid t → IsKey key → (v : Bytes) × (get ipa t key ≡ some v)
  get-total t key v len =
      let (x, e) = read-total t.root [] key v.placed len in (x, get-eq-read t key ∙ e)

  read-commit :
      (n : Node ipa) (key : Bytes) (d : ℕ) → read (Node.commit ipa n).1 key d ≡ read n key d
  unfolding read
  read-commit n key d = rw (is_nil-commit n, get-commit n key d)

  -- the shape survives the filling of the caches
  commit-IsPlaced : (n : Node ipa) (p : Bytes) → IsPlaced n p → IsPlaced (Node.commit ipa n).1 p
  unfolding Node.commit
  commit-IsPlaced nil p h = h
  commit-IsPlaced (inner ch c true) p h = h
  commit-IsPlaced (inner ch c false) p h = (h.0, λ j. commit-IsPlaced (ch j) (p ++ j ∷ []) (h.1 j))
  commit-IsPlaced (leaf l) p h = rw stem-leaf_commit h

  contents-commit :
      (n : Node ipa)
      → IsRoot n
      → IsCoherent n
      → (contents_commitment (Node.commit ipa n).1 ≡ contents_commitment n)
        × IsRoot (Node.commit ipa n).1
  unfolding Node.commit contents_commitment
  contents-commit nil r h = (refl, tt)
  contents-commit (inner ch c true) r h = (refl, tt)
  contents-commit (inner ch c false) r h = ((commit-Commits (inner ch c false) h).keeps, tt)
  contents-commit (leaf l) r h = absurd r

  commit-returns :
      (n : Node ipa)
      → IsValid (record { root = n })
      → (commit ipa (record { root = n })).0 ≡ contents_commitment n
  unfolding commit contents_commitment is_nil
  commit-returns nil v = refl
  commit-returns (inner ch c b) v = (commit-Commits (inner ch c b) v.coherent).returns
  commit-returns (leaf l) v = absurd v.rooted

  pub root-commit :
      (n : Node ipa) → (commit ipa (record { root = n })).1.root ≡ (Node.commit ipa n).1
  unfolding commit Node.commit is_nil
  root-commit nil = refl
  root-commit (inner ch c b) = refl
  root-commit (leaf l) = refl

  commit-IsValid : (t : Trie ipa) → IsValid t → IsValid (commit ipa t).1
  commit-IsValid t v = record {
    rooted = rw (root-commit t.root) (contents-commit t.root v.rooted v.coherent).1;
    placed = rw (root-commit t.root) (commit-IsPlaced t.root [] v.placed);
    coherent = rw (root-commit t.root) (commit-Commits t.root v.coherent).coherent;
  }

  -- `Commit` on a valid trie returns the commitment of the contents, whatever is cached; the trie
  -- stays valid, every `Get` is as before, and the next `Commit` returns the same.
  pub commit_lem :
      (t : Trie ipa)
      → IsValid t
      → ((commit ipa t).0 ≡ contents_commitment t.root)
        × IsValid (commit ipa t).1
        × ((k : Bytes) → get ipa (commit ipa t).1 k ≡ get ipa t k)
        × ((commit ipa (commit ipa t).1).0 ≡ (commit ipa t).0)
  commit_lem t v = (
    commit-returns t.root v,
    commit-IsValid t v,
    λ k.
        get-eq-read _ k
        ∙ ap (λ n. read n k 0) (root-commit t.root)
        ∙ read-commit t.root k 0
        ∙ sym (get-eq-read t k),
    commit-returns (commit ipa t).1.root (commit-IsValid t v)
        ∙ ap contents_commitment (root-commit t.root)
        ∙ (contents-commit t.root v.rooted v.coherent).0
        ∙ sym (commit-returns t.root v),
  )
