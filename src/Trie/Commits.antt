-- ===== src/Trie/Commits.antt =====
-- trie.go: when a trie is committed makes no difference to what it holds or commits to.
use mathlib.Core.Option.{some-injective}
use mathlib.Core.Option
use verkle_trie.Prelude.{
  ◌≡◌, refl, ◌∙◌, sym, ap, some, List, [], ◌∷◌, Bytes, All, Option-cases, inl, inr,
}
use verkle_trie.Commit.{Ipa}
use verkle_trie.Node.{Node, nil, inner, leaf, is_nil, empty_inner}
use verkle_trie.Node
use verkle_trie.Node.Erase.{erase, digest-erase, erase-commit, set-erase}
use verkle_trie.Trie.{Trie, empty, set, commit, Op, put, commits, run}
use verkle_trie.Trie.Laws.{commit_lem, contents_commitment, start, root-commit}
use verkle_trie.Trie.History.{HasKey, run-eq-latest}

-- the writes of a history
unfoldable pub writes : List Op → List Op
writes [] = []
writes (put key value ∷ ops) = put key value ∷ writes ops
writes (commits ∷ ops) = writes ops

writes-HasKey : (ops : List Op) → All HasKey ops → All HasKey (writes ops)
unfolding writes
writes-HasKey [] h = tt
writes-HasKey (put key value ∷ ops) h = (h.0, writes-HasKey ops h.1)
writes-HasKey (commits ∷ ops) h = writes-HasKey ops h.1

module _ {ipa : Ipa} where
  -- the trie with no cache
  abbrev bare : Trie ipa → Trie ipa
  bare t = record { root = erase t.root }

  contents-erase : (n : Node ipa) → contents_commitment (erase n) ≡ contents_commitment n
  unfolding contents_commitment erase
  contents-erase nil = refl
  contents-erase (inner ch c b) = digest-erase (inner ch c b)
  contents-erase (leaf l) = digest-erase (leaf l)

  start-erase : (n : Node ipa) → start (erase n) ≡ erase (start n)
  unfolding erase is_nil
  start-erase nil = refl
  start-erase (inner ch c b) = refl
  start-erase (leaf l) = refl

  set-bare :
      (t : Trie ipa) (key value : Bytes)
      → set ipa (bare t) key value ≡ Option.map bare (set ipa t key value)
  unfolding set
  set-bare t key value =
      rw (start-erase t.root, set-erase 64 (start t.root) key 0 value)
        (elim (Option-cases (Node.set ipa 64 (start t.root) key 0 value)) [
          | inl e ↦ rw e
          | inr (n, e) ↦ rw e
        ])

  bare-commit : (t : Trie ipa) → bare (commit ipa t).1 ≡ bare t
  bare-commit t =
      ap (λ (n : Node ipa). let r : Trie ipa = record { root = n } in r)
        (ap erase (root-commit t.root) ∙ erase-commit t.root)

  run-bare :
      (ops : List Op) (t u : Trie ipa)
      → bare t ≡ bare u
      → Option.map bare (run ipa t ops) ≡ Option.map bare (run ipa u (writes ops))
  unfolding run writes
  run-bare [] t u same = ap some same
  run-bare (commits ∷ ops) t u same = run-bare ops (commit ipa t).1 u (bare-commit t ∙ same)
  run-bare (put key value ∷ ops) t u same =
      let agree =
        sym (set-bare t key value)
        ∙ ap (λ (r : Trie ipa). set ipa r key value) same
        ∙ set-bare u key value in
      elim (Option-cases (set ipa t key value)) [
        | inl e ↦ elim (Option-cases (set ipa u key value)) [
          | inl f ↦ rw (e, f)
          | inr (u', f) ↦ cc (rw (e, f) at agree)
        ]
        | inr (t', e) ↦ elim (Option-cases (set ipa u key value)) [
          | inl f ↦ cc (rw (e, f) at agree)
          | inr (u', f) ↦ rw (e, f) (run-bare ops t' u' (some-injective _ _ (rw (e, f) at agree)))
        ]
      ]

  -- A history of writes of 32-byte keys, with commits at any places among them, and the same writes
  -- with no commit both run from the empty trie, and the final `Commit` returns the same commitment.
  pub commit-run-writes :
      (ops : List Op)
      → All HasKey ops
      → (t u : Trie ipa) × (run ipa (empty ipa) ops ≡ some t)
        × (run ipa (empty ipa) (writes ops) ≡ some u)
        × ((commit ipa t).0 ≡ (commit ipa u).0)
  commit-run-writes ops h =
      let (t, e, v, _) = run-eq-latest {ipa = ipa} ops h in
      let (u, f, w, _) = run-eq-latest {ipa = ipa} (writes ops) (writes-HasKey ops h) in
      let agree = rw (e, f) at (run-bare ops (empty ipa) (empty ipa) refl) in
      (
        t,
        u,
        e,
        f,
        (commit_lem t v).0
            ∙ sym (contents-erase t.root)
            ∙ ap (λ (r : Trie ipa). contents_commitment r.root) (some-injective _ _ agree)
            ∙ contents-erase u.root
            ∙ sym (commit_lem u w).0,
      )
