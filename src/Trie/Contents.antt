-- ===== src/Trie/Contents.antt =====
-- trie.go: the final commitment is a function of the keys that were written and of their values.
use verkle_trie.Prelude.{
  ◌≡◌, refl, ◌∙◌, sym, ap, Bool, true, false, ◌||◌, some, >>=-eq-some, List, [], ◌∷◌, Bytes,
  bytes_equal, bytes_equal_refl, All, arith, if◌then◌else◌,
}
use mathlib.Core.Option.{some-injective}
use verkle_trie.Commit.{Ipa}
use verkle_trie.Node
use verkle_trie.Node.{Node, nil, inner, leaf, zero_bytes32, is_nil, empty_inner}
use verkle_trie.Node.Shape.{IsKey, IsPlaced}
use verkle_trie.Node.Marks.{marked, marked-empty_inner}
use verkle_trie.Node.Compact.{HasCompact, Holds, set-Grows}
use verkle_trie.Node.Canonical.{Agree, Agree-sym, Holds-Agree, Holds-nil, Agree-digest_inner}
use verkle_trie.Trie.{Trie, empty, get, set, commit, Op, put, commits, run}
use verkle_trie.Trie.Laws.{
  IsValid, IsRoot, start, contents_commitment, empty-IsValid, get-set, get-eq-read, commit_lem,
}
use verkle_trie.Trie.History.{latest, HasKey}
use verkle_trie.Trie.Commits.{writes, commit-run-writes}

-- a write to the key is in the history
unfoldable pub written : List Op → Bytes → Bool
written [] k = false
written (put key value ∷ ops) k = bytes_equal k key || written ops k
written (commits ∷ ops) k = written ops k

or_assoc_comm : (a b c : Bool) → ((a || b) || c) ≡ (b || (a || c))
or_assoc_comm true true c = refl
or_assoc_comm true false c = refl
or_assoc_comm false b c = refl

pub or_nothing : (b : Bool) → (b || false) ≡ b
or_nothing true = refl
or_nothing false = refl

pub get-empty : (ipa : Ipa) (k : Bytes) → get ipa (empty ipa) k ≡ some zero_bytes32
unfolding get is_nil
get-empty ipa k = refl

module _ {ipa : Ipa} where
  -- an inner root holds a key
  abbrev IsUsed : Node ipa → Type 0
  IsUsed nil = Unit
  IsUsed (inner ch c b) = (k : Bytes) × Holds (inner ch c b) [] k
  IsUsed (leaf l) = ⊥

  pub record IsCanonical (t : Trie ipa) : Type 0 where
    pub valid : IsValid t
    pub compact : HasCompact t.root []
    pub used : IsUsed t.root

  pub empty-IsCanonical : IsCanonical (empty ipa)
  empty-IsCanonical = record { valid = empty-IsValid; compact = tt; used = tt }

  root-IsUsed : (n : Node ipa) (key : Bytes) → IsRoot n → Holds n [] key → IsUsed n
  root-IsUsed nil key r h = tt
  root-IsUsed (inner ch c b) key r h = (key, h)
  root-IsUsed (leaf l) key r h = r

  -- The start of a write is a compact inner node with the same marks.
  start-Grows :
      (n : Node ipa) (key value : Bytes) (n' : Node ipa)
      → IsRoot n
      → IsPlaced n []
      → HasCompact n []
      → IsKey key
      → Node.set ipa 64 (start n) key 0 value ≡ some n'
      → HasCompact n' []
        × ((k : Bytes) → IsKey k → marked n' k 0 ≡ (bytes_equal k key || marked n k 0))
  unfolding is_nil
  start-Grows (leaf l) key value n' r h w len e = absurd r
  start-Grows (inner ch c b) key value n' r h w len e =
      let g = set-Grows 64 (inner ch c b) [] key value n' h w len refl e in
      (g.children, λ k len'. g.marks k len' refl)
  start-Grows nil key value n' r h w len e =
      let g =
        set-Grows 64 (empty_inner ipa) [] key value n' (omega arith, λ j. tt) (λ j. tt) len refl
          e in
      (
        g.children,
        λ k len'.
            g.marks k len' refl ∙ ap (λ x. bytes_equal k key || x) (marked-empty_inner ipa k 0),
      )

  set-IsCanonical :
      (t : Trie ipa) (key value : Bytes)
      → IsCanonical t
      → IsKey key
      → (t' : Trie ipa) × (set ipa t key value ≡ some t')
        × IsCanonical t'
        × ((k : Bytes) → IsKey k → marked t'.root k 0 ≡ (bytes_equal k key || marked t.root k 0))
        × ((k : Bytes)
            → IsKey k
            → get ipa t' k ≡ (if bytes_equal k key then some value else get ipa t k))
  unfolding set
  set-IsCanonical t key value w len =
      let (t', e, v, reads) = get-set t key value w.valid len in
      let (n, run_set, same) = >>=-eq-some (Node.set ipa 64 (start t.root) key 0 value) _ e in
      let root : n ≡ t'.root = ap (λ (x : Trie ipa). x.root) (some-injective _ _ same) in
      let (compact, marks) =
        start-Grows t.root key value t'.root w.valid.rooted w.valid.placed w.compact len
          (run_set ∙ ap some root) in
      let here : marked t'.root key 0 ≡ true =
        marks key len ∙ ap (λ x. x || marked t.root key 0) (bytes_equal_refl key) in
      (
        t',
        e,
        record {
          valid = v;
          compact = compact;
          used =
              root-IsUsed t'.root key v.rooted
                (record { sized = len; on_path = refl; written = here });
        },
        marks,
        reads,
      )

  -- the writes of a history, from a canonical trie
  pub run-IsCanonical :
      (ops : List Op) (t : Trie ipa)
      → IsCanonical t
      → All HasKey ops
      → (t' : Trie ipa) × (run ipa t (writes ops) ≡ some t')
        × IsCanonical t'
        × ((k : Bytes) → IsKey k → marked t'.root k 0 ≡ (marked t.root k 0 || written ops k))
        × ((k : Bytes) → IsKey k → get ipa t' k ≡ latest (get ipa t k) ops k)
  unfolding run writes written latest
  run-IsCanonical [] t w h =
      (t, refl, w, λ k len. sym (or_nothing (marked t.root k 0)), λ k len. refl)
  run-IsCanonical (commits ∷ ops) t w h = run-IsCanonical ops t w h.1
  run-IsCanonical (put key value ∷ ops) t w h =
      let (u, e, wu, marks, reads) = set-IsCanonical t key value w h.0 in
      let (t', e', w', marks', reads') = run-IsCanonical ops u wu h.1 in
      (
        t',
        rw e e',
        w',
        λ k len.
            marks' k len
            ∙ ap (λ x. x || written ops k) (marks k len)
            ∙ or_assoc_comm (bytes_equal k key) (marked t.root k 0) (written ops k),
        λ k len. reads' k len ∙ ap (λ x. latest x ops k) (reads k len),
      )

  -- Canonical tries that agree have one commitment.
  contents-Agree :
      (n m : Node ipa)
      → IsPlaced n []
      → IsPlaced m []
      → HasCompact n []
      → HasCompact m []
      → IsUsed n
      → IsUsed m
      → Agree n m []
      → contents_commitment n ≡ contents_commitment m
  unfolding contents_commitment
  contents-Agree nil nil h h' w w' u u' a = refl
  contents-Agree (inner ch c b) (inner ch' c' b') h h' w w' u u' a =
      Agree-digest_inner ch ch' c c' b b' h h' w w' a
  contents-Agree nil (inner ch c b) h h' w w' u u' a = absurd (
      Holds-nil [] u'.0
        (Holds-Agree (inner ch c b) nil [] u'.0 (Agree-sym nil (inner ch c b) [] a) u'.1))
  contents-Agree (inner ch c b) nil h h' w w' u u' a =
      absurd (Holds-nil [] u.0 (Holds-Agree (inner ch c b) nil [] u.0 a u.1))
  contents-Agree (leaf l) m h h' w w' u u' a = absurd u
  contents-Agree nil (leaf m) h h' w w' u u' a = absurd u'
  contents-Agree (inner ch c b) (leaf m) h h' w w' u u' a = absurd u'

  -- Two histories of writes of 32-byte keys and of commits, in any order and with any overwritten
  -- values, run from the empty trie to the same commitment where they write the same keys and leave
  -- the same value under each key.
  pub commit-contents :
      (ops ops' : List Op)
      → All HasKey ops
      → All HasKey ops'
      → ((k : Bytes) → IsKey k → written ops k ≡ written ops' k)
      → ((k : Bytes)
          → IsKey k
          → latest (some zero_bytes32) ops k ≡ latest (some zero_bytes32) ops' k)
      → (t u : Trie ipa) × (run ipa (empty ipa) ops ≡ some t)
        × (run ipa (empty ipa) ops' ≡ some u)
        × ((commit ipa t).0 ≡ (commit ipa u).0)
  commit-contents ops ops' h h' same_keys same_values =
      let (t, t1, e, e1, c) = commit-run-writes {ipa = ipa} ops h in
      let (u, u1, f, f1, d) = commit-run-writes {ipa = ipa} ops' h' in
      let (t2, e2, w, marks, reads) = run-IsCanonical ops (empty ipa) empty-IsCanonical h in
      let (u2, f2, w', marks', reads') = run-IsCanonical ops' (empty ipa) empty-IsCanonical h' in
      let same_t : t1 ≡ t2 = some-injective _ _ (sym e1 ∙ e2) in
      let same_u : u1 ≡ u2 = some-injective _ _ (sym f1 ∙ f2) in
      let agree : Agree t2.root u2.root [] = record {
        reads = λ k len _.
            sym (get-eq-read t2 k)
            ∙ reads k len
            ∙ ap (λ x. latest x ops k) (get-empty ipa k)
            ∙ same_values k len
            ∙ sym (ap (λ x. latest x ops' k) (get-empty ipa k))
            ∙ sym (reads' k len)
            ∙ get-eq-read u2 k;
        marks = λ k len _.
            marks k len
            ∙ ap (λ x. marked {ipa = ipa} nil k 0 || x) (same_keys k len)
            ∙ sym (marks' k len);
      } in
      (
        t,
        u,
        e,
        f,
        c
            ∙ ap (λ (x : Trie ipa). (commit ipa x).0) same_t
            ∙ (commit_lem t2 w.valid).0
            ∙ contents-Agree t2.root u2.root w.valid.placed w'.valid.placed w.compact w'.compact
                w.used w'.used agree
            ∙ sym (commit_lem u2 w'.valid).0
            ∙ sym (ap (λ (x : Trie ipa). (commit ipa x).0) same_u)
            ∙ sym d,
      )
