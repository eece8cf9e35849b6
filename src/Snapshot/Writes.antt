-- ===== src/Snapshot/Writes.antt =====
-- The values that a history of writes leaves, and the writes of the entries of a map.
use verkle_trie.Prelude.{
  ◌≡◌, ◌≢◌, refl, ◌∙◌, sym, ap, Bool, true, false, Option, none, some, List, [], ◌∷◌, Bytes,
  bytes_equal, bytes_equal-eq, bytes_equal_comm, length, zeros, map, Bool-cases, inl, inr, All,
  if◌then◌else◌,
}
use verkle_trie.Commit.Encoding.{IsBytes32}
use verkle_trie.Node.Shape.{IsKey}
use verkle_trie.Trie.{Op, put, commits}
use verkle_trie.Trie.History.{latest, HasKey}
use verkle_trie.Trie.Contents.{written}
use verkle_trie.Trie.Sized.{HasBytes32}
use verkle_trie.Witness.{Storage, lookup}
use verkle_trie.Witness.Extracts.{or_else, is_some}
use verkle_trie.Witness.Ranges.{IsMap}
use verkle_trie.Snapshot.RoundTrip.{put_entry}
use verkle_trie.Snapshot.Samples.{nonzero}

-- a write of a 32-byte value under a 32-byte key
abbrev pub HasEntry : Op → Type 0
HasEntry (put key value) = IsKey key × (length value ≡ 32)
HasEntry commits = Unit

pub HasEntry-HasKey : (ops : List Op) → All HasEntry ops → All HasKey ops
HasEntry-HasKey [] h = tt
HasEntry-HasKey (put key value ∷ ops) h = (h.0.0, HasEntry-HasKey ops h.1)
HasEntry-HasKey (commits ∷ ops) h = (tt, HasEntry-HasKey ops h.1)

-- the value under a key after a history, on top of what was there
unfoldable pub final : Bytes → List Op → Bytes → Bytes
final before [] k = before
final before (put key value ∷ ops) k = final (if bytes_equal k key then value else before) ops k
final before (commits ∷ ops) k = final before ops k

some-if : (b : Bool) (x y : Bytes) → (if b then some x else some y) ≡ some (if b then x else y)
some-if true x y = refl
some-if false x y = refl

pub latest-final :
    (ops : List Op) (before k : Bytes) → latest (some before) ops k ≡ some (final before ops k)
unfolding latest final
latest-final [] before k = refl
latest-final (put key value ∷ ops) before k =
    ap (λ b. latest b ops k) (some-if (bytes_equal k key) value before)
    ∙ latest-final ops (if bytes_equal k key then value else before) k
latest-final (commits ∷ ops) before k = latest-final ops before k

pub length-final :
    (ops : List Op) (before k : Bytes)
    → All HasEntry ops
    → length before ≡ 32
    → length (final before ops k) ≡ 32
unfolding final
length-final [] before k h len = len
length-final (put key value ∷ ops) before k h len = elim (Bool-cases (bytes_equal k key)) [
  | inl same ↦ rw same (length-final ops value k h.1 h.0.1)
  | inr other ↦ rw other (length-final ops before k h.1 len)
]
length-final (commits ∷ ops) before k h len = length-final ops before k h.1 len

pub final-IsBytes32 :
    (ops : List Op) (before k : Bytes)
    → All HasBytes32 ops
    → IsBytes32 before
    → IsBytes32 (final before ops k)
unfolding final
final-IsBytes32 [] before k h b = b
final-IsBytes32 (put key value ∷ ops) before k h b = elim (Bool-cases (bytes_equal k key)) [
  | inl same ↦ rw same (final-IsBytes32 ops value k h.1 h.0.1)
  | inr other ↦ rw other (final-IsBytes32 ops before k h.1 b)
]
final-IsBytes32 (commits ∷ ops) before k h b = final-IsBytes32 ops before k h.1 b

-- A key that is not written keeps its value.
pub final-unwritten :
    (ops : List Op) (before k : Bytes) → written ops k ≡ false → final before ops k ≡ before
unfolding final written
final-unwritten [] before k h = refl
final-unwritten (put key value ∷ ops) before k h = elim (Bool-cases (bytes_equal k key)) [
  | inl same ↦ cc (rw same at h)
  | inr other ↦ rw other (final-unwritten ops before k (rw other at h))
]
final-unwritten (commits ∷ ops) before k h = final-unwritten ops before k h

-- the writes of the entries of a map
pub written-entries :
    (entries : Storage) (k : Bytes) → written (map put_entry entries) k ≡ is_some (lookup entries k)
unfolding written lookup
written-entries [] k = refl
written-entries ((key, value) ∷ entries) k = elim (Bool-cases (bytes_equal key k)) [
  | inl same ↦ rw (bytes_equal_comm k key, same) refl
  | inr other ↦ rw (bytes_equal_comm k key, other) (written-entries entries k)
]

pub latest-entries :
    (entries : Storage) (before : Option Bytes) (k : Bytes)
    → IsMap entries
    → latest before (map put_entry entries) k ≡ or_else (lookup entries k) before
unfolding latest lookup IsMap
latest-entries [] before k m = refl
latest-entries ((key, value) ∷ entries) before k m =
    latest-entries entries (if bytes_equal k key then some value else before) k m.1
    ∙ (elim (Bool-cases (bytes_equal key k)) [
      | inr other ↦ rw (bytes_equal_comm k key, other) refl
      | inl same ↦
          let missing : lookup entries k ≡ none =
            ap (lookup entries) (sym (bytes_equal-eq key k same)) ∙ m.0 in
          rw (bytes_equal_comm k key, same, missing) refl
    ])

pub nonzero_cases : (value : Bytes) → or_else (nonzero value) (some (zeros 32)) ≡ some value
nonzero_cases value = elim (Bool-cases (bytes_equal value (zeros 32))) [
  | inl same ↦ rw same (ap some (sym (bytes_equal-eq value (zeros 32) same)))
  | inr other ↦ rw other refl
]

pub is_some-nonzero : (value : Bytes) → value ≢ zeros 32 → is_some (nonzero value) ≡ true
is_some-nonzero value h = elim (Bool-cases (bytes_equal value (zeros 32))) [
  | inl same ↦ absurd (h (bytes_equal-eq value (zeros 32) same))
  | inr other ↦ rw other refl
]
