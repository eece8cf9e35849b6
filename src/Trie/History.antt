-- ===== src/Trie/History.antt =====
-- Whole histories of a trie of trie.go, against the list of writes.
use verkle_trie.Prelude.{
  ◌≡◌, refl, ◌∙◌, ap, Option, some, List, [], ◌∷◌, Bytes, if◌then◌else◌, bytes_equal, All,
}
use verkle_trie.Commit.{Ipa}
use verkle_trie.Node.{zero_bytes32, is_nil}
use verkle_trie.Node.Shape.{IsKey}
use verkle_trie.Trie.{Trie, empty, get, commit, Op, put, commits, run}
use verkle_trie.Trie.Laws.{IsValid, empty-IsValid, get-set, commit_lem}

-- the value that the latest write left under a key, on top of what was there
unfoldable pub latest : Option Bytes → List Op → Bytes → Option Bytes
latest before [] k = before
latest before (put key value ∷ ops) k =
    latest (if bytes_equal k key then some value else before) ops k
latest before (commits ∷ ops) k = latest before ops k

abbrev pub HasKey : Op → Type 0
HasKey (put key value) = IsKey key
HasKey commits = Unit

module _ {ipa : Ipa} where
  run-get :
      (ops : List Op) (t : Trie ipa)
      → IsValid t
      → All HasKey ops
      → (t' : Trie ipa) × (run ipa t ops ≡ some t')
        × IsValid t'
        × ((k : Bytes) → IsKey k → get ipa t' k ≡ latest (get ipa t k) ops k)
  unfolding run latest
  run-get [] t v h = (t, refl, v, λ k len. refl)
  run-get (put key value ∷ ops) t v h =
      let (u, e, vu, reads) = get-set t key value v h.0 in
      let (t', e', v', reads') = run-get ops u vu h.1 in
      (t', rw e e', v', λ k len. reads' k len ∙ ap (λ b. latest b ops k) (reads k len))
  run-get (commits ∷ ops) t v h =
      let (_, vu, reads, _) = commit_lem t v in
      let (t', e', v', reads') = run-get ops (commit ipa t).1 vu h.1 in
      (t', e', v', λ k len. reads' k len ∙ ap (λ b. latest b ops k) (reads k))

  -- Any sequence of writes of 32-byte keys and of commits runs on the empty trie with no panic, to a
  -- valid trie, in which `Get` of a 32-byte key returns the value of the latest write to it, and 32
  -- zero bytes where there was none.
  pub run-eq-latest :
      (ops : List Op)
      → All HasKey ops
      → (t : Trie ipa) × (run ipa (empty ipa) ops ≡ some t)
        × IsValid t
        × ((k : Bytes) → IsKey k → get ipa t k ≡ latest (some zero_bytes32) ops k)
  unfolding get is_nil
  run-eq-latest ops h = run-get ops (empty ipa) empty-IsValid h
