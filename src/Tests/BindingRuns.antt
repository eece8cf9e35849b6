-- ===== src/Tests/BindingRuns.antt =====
-- A stand-in for go-ipa whose scalars are byte strings and whose commitments keep the whole vector,
-- and the binding theorem applied to it.
use verkle_trie.Prelude.{
  ◌≡◌, ◌⊎◌, refl, ◌∙◌, sym, ap, Bool, true, false, ◌&&◌, Option, none, some, get_or, length,
  length-copy, copy, copy_full, IsByte, List, [], ◌∷◌, Bytes, All, zeros, replicate, tabulate,
  bytes_equal, bytes_equal_iff, bytes_equal_refl, Bool-cases, inl, inr, arith,
}
use mathlib.Core.List.{reverse, reverse-reverse, flatten}
use verkle_trie.Commit
use verkle_trie.Commit.{Ipa, Commitment, compress}
use verkle_trie.Commit.Encoding.{IsStandard}
use verkle_trie.Commit.Binding.{Break}
use verkle_trie.Node.{zero_bytes32}
use verkle_trie.Trie.{Trie, empty, get, commit, Op, put, run}
use verkle_trie.Node.Shape.{IsKey}
use verkle_trie.Trie.Laws.{IsValid}
use verkle_trie.Trie.History.{latest, run-eq-latest}
use verkle_trie.Archive.{Snapshot}
use verkle_trie.Snapshot.{Failure, commitment_mismatch, create_snapshot, serialize_entries, restore}
use verkle_trie.Snapshot.RoundTrip.{deserialize_trie-run}
use verkle_trie.Snapshot.Histories.{restore-deserialized}
use verkle_trie.Snapshot.Lost.{restore-mismatch}
use verkle_trie.Snapshot.Binding.{restore-binding}
use verkle_trie.Trie.Contents.{written, commit-contents}
use verkle_trie.Trie.Sized.{HasBytes32}
use verkle_trie.Trie.Binding.{commit-binding}
use verkle_trie.Tests.TrieRuns.{key1, value, late, early, written_same, latest_same}

abbrev vectors_equal : List Bytes → List Bytes → Bool
vectors_equal [] [] = true
vectors_equal [] (y ∷ ys) = false
vectors_equal (x ∷ xs) [] = false
vectors_equal (x ∷ xs) (y ∷ ys) = bytes_equal x y && vectors_equal xs ys

abbrev keeps_all : (List Bytes → List Bytes → Bool) → (List Bytes → Bytes) → Ipa
keeps_all equal to_bytes = record {
  Fr = Bytes;
  Element = List Bytes;
  zero_fr = zeros 32;
  zero_element = [];
  set_uint64 = λ n. n ∷ zeros 31;
  set_bytes_le = λ bs. bs;
  set_bytes = reverse;
  bytes = reverse;
  bytes_le = λ bs. bs;
  sub = λ a b. a;
  identity = replicate 256 (zeros 32);
  commit = λ xs. xs;
  add = λ a b. a;
  equal = equal;
  is_on_curve = λ _. true;
  map_to_scalar_field = flatten;
  to_bytes = to_bytes;
}

abbrev whole : Ipa
whole = keeps_all vectors_equal flatten

-- the first 32 bytes, and equality of these
abbrev brief_bytes : List Bytes → Bytes
brief_bytes p = copy (zeros 32) (flatten p)

abbrev brief : Ipa
brief = keeps_all (λ p q. bytes_equal (brief_bytes p) (brief_bytes q)) brief_bytes

vectors_equal_refl : (xs : List Bytes) → vectors_equal xs xs ≡ true
vectors_equal_refl [] = refl
vectors_equal_refl (x ∷ xs) = rw (bytes_equal_refl x) (vectors_equal_refl xs)

same_bytes : (x y : Bytes) → Dec (x ≡ y)
same_bytes x y = elim (Bool-cases (bytes_equal x y)) [
  | inl same ↦ yes ((bytes_equal_iff x y).0 same)
  | inr apart ↦ no (λ e. let same = (bytes_equal_iff x y).1 e in cc)
]

keeps_all-IsStandard :
    (equal : List Bytes → List Bytes → Bool) (to_bytes : List Bytes → Bytes)
    → IsStandard (keeps_all equal to_bytes)
unfolding tabulate
keeps_all-IsStandard equal to_bytes = record {
  same_fr = same_bytes;
  bytes-set_bytes_le = λ bs w top. refl;
  bytes-set_bytes = λ bs w top. reverse-reverse bs;
  one = λ e. let bit : 1 ≡ 0 = ap (λ bs. get_or bs 0 0) e in absurd (omega arith);
  equal-identity_left = λ q. refl;
  equal-identity_right = λ q. refl;
}

-- two histories of one contents, with their tries
same_contents :
    (t u : Trie whole) × (run whole (empty whole) late ≡ some t)
    × (run whole (empty whole) early ≡ some u)
    × ((commit whole t).0 ≡ (commit whole u).0)
same_contents = commit-contents late early (omega arith) (omega arith) written_same latest_same

abbrev late_trie : Trie whole
late_trie = same_contents.0

abbrev early_trie : Trie whole
early_trie = same_contents.1

same_commitments : Commit.equal whole (commit whole late_trie).0 (commit whole early_trie).0 ≡ true
unfolding Commit.equal
same_commitments =
    ap (λ (c : Commitment whole). vectors_equal c.point (commit whole early_trie).0.point)
      same_contents.4
    ∙ vectors_equal_refl (commit whole early_trie).0.point

late-HasBytes32 : All HasBytes32 late
late-HasBytes32 = omega arith

commit-binding_example :
    Break whole
    ⊎ ((latest (some zero_bytes32) late key1 ≡ latest (some zero_bytes32) early key1)
        × (written late key1 ≡ written early key1))
commit-binding_example =
    commit-binding (keeps_all-IsStandard vectors_equal flatten) late early late_trie early_trie key1
      late-HasBytes32 (omega arith) (omega arith) same_contents.2 same_contents.3 same_commitments

compress_size : (c : Commitment brief) → length (compress brief c) ≡ 32
unfolding compress
compress_size c = length-copy (zeros 32) (flatten c.point)

compress_same :
    (c d : Commitment brief)
    → bytes_equal (compress brief c) (compress brief d) ≡ true
    → Commit.equal brief c d ≡ true
unfolding compress Commit.equal
compress_same c d e = e

brief-IsStandard : IsStandard brief
brief-IsStandard = keeps_all-IsStandard _ brief_bytes

-- a key that is written and set back to zero
abbrev cleared : List Op
cleared = put key1 (value 50) ∷ put key1 (zeros 32) ∷ []

written-cleared : written cleared key1 ≡ true
unfolding written bytes_equal
written-cleared = refl

latest-cleared : latest (some zero_bytes32) cleared key1 ≡ some (zeros 32)
unfolding latest bytes_equal
latest-cleared = refl

restore-mismatch_example :
    (t t' r : Trie brief) × (s : Snapshot) × (error : Option Failure) × (run brief
        (empty brief)
        cleared
      ≡ some t)
    × (create_snapshot brief t ≡ some (t', s))
    × (restore brief (empty brief) s ≡ some (r, error))
    × (Break brief ⊎ (error ≡ some commitment_mismatch))
restore-mismatch_example =
    restore-mismatch brief-IsStandard cleared (empty brief) key1 (omega arith) (omega arith)
      written-cleared (inr latest-cleared) compress_size compress_same

-- a snapshot of one entry
abbrev kept : List Op
kept = put key1 (value 50) ∷ []

run-kept :
    (t : Trie brief) × (run brief (empty brief) kept ≡ some t)
    × IsValid t
    × ((k : Bytes) → IsKey k → get brief t k ≡ latest (some zero_bytes32) kept k)
run-kept = run-eq-latest kept (omega arith)

abbrev kept_trie : Trie brief
kept_trie = run-kept.0

abbrev kept_snapshot : Snapshot
kept_snapshot = record {
  commitment = compress brief (commit brief kept_trie).0;
  bytes = serialize_entries ((key1, value 50) ∷ []);
}

kept_bytes : All IsByte kept_snapshot.bytes
unfolding serialize_entries
kept_bytes = omega arith

kept_restored : restore brief (empty brief) kept_snapshot ≡ some ((commit brief kept_trie).1, none)
kept_restored =
    restore-deserialized (empty brief) kept_trie kept_snapshot
      (deserialize_trie-run (empty brief) kept_trie ((key1, value 50) ∷ []) (omega arith)
        (omega arith) run-kept.1)
      (sym
        (copy_full (zeros 32) kept_snapshot.commitment (compress_size (commit brief kept_trie).0)))

restore-binding_example :
    Break brief ⊎ (get brief (commit brief kept_trie).1 key1 ≡ get brief kept_trie key1)
restore-binding_example =
    restore-binding brief-IsStandard kept kept_trie (empty brief) (commit brief kept_trie).1
      kept_snapshot key1 (omega arith) kept_bytes (omega arith) compress_size compress_same
      run-kept.1 refl kept_restored
