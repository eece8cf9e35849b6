-- ===== src/Tests/TrieRuns.antt =====
-- Runs of nodes.go and trie.go.
use verkle_trie.Prelude.{
  ℕ, ◌≡◌, ◌≤◌, refl, Bool, true, false, ◌||◌, some, List, [], ◌∷◌, ◌++◌, ◌>>=◌, Bytes, arith,
  bytes_equal, if◌then◌else◌, zeros,
}
use verkle_trie.Node
use verkle_trie.Node.{Node}
use verkle_trie.Trie.Laws.{start}
use verkle_trie.Trie.Calls.{set_calls}
use verkle_trie.Node.{Leaf, zero_bytes32, new_leaf, leaf_set, is_used}
use verkle_trie.Node.Shape.{IsKey}
use verkle_trie.Trie.{Trie, empty, get, set, commit, Op, put, commits, run}
use verkle_trie.Trie.Laws.{IsValid, empty-IsValid, get-set, commit_lem, contents_commitment}
use verkle_trie.Trie.History.{latest, run-eq-latest}
use verkle_trie.Trie.Commits.{writes, commit-run-writes}
use verkle_trie.Trie.Contents.{written, commit-contents}
use verkle_trie.Tests.Toy.{toy}

-- keys that part at the third byte, at the last byte of the stem, and at the suffix
abbrev pub key1 : Bytes
key1 = 1 ∷ 2 ∷ 3 ∷ zeros 29

abbrev pub key2 : Bytes
key2 = 1 ∷ 2 ∷ 4 ∷ zeros 29

abbrev key3 : Bytes
key3 = 1 ∷ 2 ∷ 3 ∷ (zeros 27 ++ 9 ∷ 0 ∷ [])

abbrev key4 : Bytes
key4 = 1 ∷ 2 ∷ 3 ∷ (zeros 28 ++ 130 ∷ [])

abbrev pub value : ℕ → Bytes
value n = n ∷ zeros 31

abbrev script : List Op
script =
    put key1 (value 10)
    ∷ commits
    ∷ put key2 (value 20)
    ∷ put key3 (value 30)
    ∷ commits
    ∷ put key4 (value 40)
    ∷ put key1 (value 50)
    ∷ []

reads : (run toy (empty toy) script >>= λ t. get toy t key1) ≡ some (value 50)
unfolding run set get commit Node.set Node.get Node.commit bytes_equal
reads = refl

reads_deep : (run toy (empty toy) script >>= λ t. get toy t key3) ≡ some (value 30)
unfolding run set get commit Node.set Node.get Node.commit bytes_equal
reads_deep = refl

reads_missing : (run toy (empty toy) script >>= λ t. get toy t (zeros 32)) ≡ some zero_bytes32
unfolding run set get commit Node.set Node.get Node.commit bytes_equal
reads_missing = refl

get-set_example :
    (t : Trie toy) × (set toy (empty toy) key1 (value 1) ≡ some t)
    × IsValid t
    × ((k : Bytes)
        → IsKey k
        → get toy t k ≡ (if bytes_equal k key1 then some (value 1) else get toy (empty toy) k))
get-set_example = get-set (empty toy) key1 (value 1) empty-IsValid refl

-- a trie of one entry, with its validity
abbrev filled : Trie toy
filled = get-set_example.0

set_calls_example :
    (n : Node toy) × (set toy filled key4 (value 2) ≡ some (record { root = n }))
    × ((fuel : ℕ) → 62 ≤ fuel → Node.set toy fuel (start filled.root) key4 0 (value 2) ≡ some n)
set_calls_example = set_calls filled key4 (value 2) get-set_example.2 refl

commit_lem_example :
    ((commit toy filled).0 ≡ contents_commitment filled.root)
    × IsValid (commit toy filled).1
    × ((k : Bytes) → get toy (commit toy filled).1 k ≡ get toy filled k)
    × ((commit toy (commit toy filled).1).0 ≡ (commit toy filled).0)
commit_lem_example = commit_lem filled get-set_example.2

run-eq-latest_example :
    (t : Trie toy) × (run toy (empty toy) script ≡ some t)
    × IsValid t
    × ((k : Bytes) → IsKey k → get toy t k ≡ latest (some zero_bytes32) script k)
run-eq-latest_example = run-eq-latest script (omega arith)

commit-run-writes_example :
    (t u : Trie toy) × (run toy (empty toy) script ≡ some t)
    × (run toy (empty toy) (writes script) ≡ some u)
    × ((commit toy t).0 ≡ (commit toy u).0)
commit-run-writes_example = commit-run-writes script (omega arith)

-- two histories of the same contents
abbrev pub late : List Op
late = put key1 (value 10) ∷ put key2 (value 20) ∷ commits ∷ put key1 (value 50) ∷ []

abbrev pub early : List Op
early = put key2 (value 20) ∷ put key1 (value 50) ∷ []

or_twice : (a b : Bool) → (a || (b || (a || false))) ≡ (b || (a || false))
or_twice true true = refl
or_twice true false = refl
or_twice false true = refl
or_twice false false = refl

pub written_same : (k : Bytes) → IsKey k → written late k ≡ written early k
unfolding written
written_same k len = or_twice (bytes_equal k key1) (bytes_equal k key2)

last_wins :
    {A : Type 0} (a b : Bool) (x y z old : A)
    → (if a then x else (if b then y else (if a then z else old)))
      ≡ (if a then x else (if b then y else old))
last_wins true b x y z old = refl
last_wins false b x y z old = refl

pub latest_same :
    (k : Bytes) → IsKey k → latest (some zero_bytes32) late k ≡ latest (some zero_bytes32) early k
unfolding latest
latest_same k len =
    last_wins (bytes_equal k key1) (bytes_equal k key2) (some (value 50)) (some (value 20))
      (some (value 10)) (some zero_bytes32)

commit-contents_example :
    (t u : Trie toy) × (run toy (empty toy) late ≡ some t)
    × (run toy (empty toy) early ≡ some u)
    × ((commit toy t).0 ≡ (commit toy u).0)
commit-contents_example =
    commit-contents late early (omega arith) (omega arith) written_same latest_same
