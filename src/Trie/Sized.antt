-- ===== src/Trie/Sized.antt =====
-- trie.go: the types `Key` and `Value`, of 32 bytes each, hold of whatever a trie stores.
use verkle_trie.Prelude.{◌≡◌, some, >>=-eq-some, List, [], ◌∷◌, All, subst}
use mathlib.Core.Option.{some-injective}
use verkle_trie.Commit.{Ipa}
use verkle_trie.Commit.Encoding.{IsBytes32}
use verkle_trie.Node
use verkle_trie.Node.{Node, nil, inner, leaf, is_nil}
use verkle_trie.Node.Sized.{IsSized, set-IsSized, commit-IsSized}
use verkle_trie.Trie.{Trie, set, Op, put, commits, step, run}
use verkle_trie.Trie.Laws.{start, root-commit}

-- a write of a `Key` and a `Value`
abbrev pub HasBytes32 : Op → Type 0
HasBytes32 (put key value) = IsBytes32 key × IsBytes32 value
HasBytes32 commits = Unit

module _ {ipa : Ipa} where
  start-IsSized : (n : Node ipa) → IsSized n → IsSized (start n)
  unfolding is_nil
  start-IsSized nil h = λ j. tt
  start-IsSized (inner ch c b) h = h
  start-IsSized (leaf l) h = h

  step-IsSized :
      (t : Trie ipa) (op : Op) (t' : Trie ipa)
      → HasBytes32 op
      → IsSized t.root
      → step ipa t op ≡ some t'
      → IsSized t'.root
  unfolding step set
  step-IsSized t (put key value) t' w h e =
      let (n, run_set, same) = >>=-eq-some (Node.set ipa 64 (start t.root) key 0 value) _ e in
      subst (λ (r : Trie ipa). IsSized r.root) (some-injective _ _ same)
        (set-IsSized 64 (start t.root) key 0 value n w.0.1 w.1 (start-IsSized t.root h) run_set)
  step-IsSized t commits t' w h e =
      subst (λ (r : Trie ipa). IsSized r.root) (some-injective _ _ e)
        (rw (root-commit t.root) (commit-IsSized t.root h))

  -- A history of writes of 32-byte keys and values and of commits keeps the stems of the leaves
  -- bytes and their values 32 bytes each.
  pub run-IsSized :
      (ops : List Op) (t t' : Trie ipa)
      → All HasBytes32 ops
      → IsSized t.root
      → run ipa t ops ≡ some t'
      → IsSized t'.root
  unfolding run
  run-IsSized [] t t' w h e = subst (λ (r : Trie ipa). IsSized r.root) (some-injective _ _ e) h
  run-IsSized (op ∷ ops) t t' w h e =
      let (u, first, rest) = >>=-eq-some (step ipa t op) _ e in
      run-IsSized ops u t' w.1 (step-IsSized t op u w.0 h first) rest
