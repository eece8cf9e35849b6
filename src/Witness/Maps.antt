-- ===== src/Witness/Maps.antt =====
-- state.go: the storage map of a proof, also the map of entries of `serializeTrie`, has each key once.
use verkle_trie.Prelude.{
  ◌+◌, ◌≤◌, refl, ◌∙◌, sym, ap, [], ◌∷◌, Bytes, bytes_equal, bytes_equal-eq, bytes_equal_comm,
  length, Bool-cases, inl, inr, All, arith,
}
use verkle_trie.Witness.{Storage, lookup, insert}
use verkle_trie.Witness.Extracts.{lookup-insert}
use verkle_trie.Witness.Ranges.{IsMap}

pub insert-IsMap :
    (storage : Storage) (key value : Bytes) → IsMap storage → IsMap (insert storage key value)
unfolding insert IsMap lookup
insert-IsMap [] key value m = (refl, tt)
insert-IsMap ((k, v) ∷ storage) key value m = elim (Bool-cases (bytes_equal k key)) [
  | inl same ↦ rw same (ap (lookup storage) (sym (bytes_equal-eq k key same)) ∙ m.0, m.1)
  | inr other ↦ rw other (
    lookup-insert storage key value k ∙ (rw (bytes_equal_comm key k, other) m.0),
    insert-IsMap storage key value m.1,
  )
]

pub length-insert :
    (storage : Storage) (key value : Bytes) → length (insert storage key value) ≤ length storage + 1
unfolding insert
length-insert [] key value = omega arith
length-insert ((k, v) ∷ storage) key value =
    let rest = length-insert storage key value in
    elim (Bool-cases (bytes_equal k key)) [
      | inl same ↦ rw same (omega arith)
      | inr other ↦ rw other (omega arith)
    ]

-- What holds of all entries and of the new one holds of all entries afterwards.
pub All-insert :
    (P : Bytes × Bytes → Type 0) (storage : Storage) (key value : Bytes)
    → All P storage
    → P (key, value)
    → All P (insert storage key value)
unfolding insert
All-insert P [] key value h p = (p, tt)
All-insert P ((k, v) ∷ storage) key value h p = elim (Bool-cases (bytes_equal k key)) [
  | inl same ↦ rw same (p, h.1)
  | inr other ↦ rw other (h.0, All-insert P storage key value h.1 p)
]
