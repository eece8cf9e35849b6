-- ===== src/Tests/ArchiveRuns.antt =====
-- Runs of the archive of state.go.
use verkle_trie.Prelude.{ℕ, ◌≡◌, refl, true, ◌&&◌, ◌==◌, if◌then◌else◌, some, none, [], ◌∷◌, arith}
use verkle_trie.Archive.{
  Archive, Snapshot, add_block, get_block, new_archive, record_block, prune_oldest,
  get_block_height,
}
use verkle_trie.Archive.Bounds.{IsValid, new_archive-IsValid, add_block-IsValid}
use verkle_trie.Archive.Oldest.{IsOrdered, add_block-IsOrdered, add_block-evicts_newer}
use verkle_trie.Archive.Evicted.{IsEarliest, overflows, add_block-evicts_oldest}

abbrev snap : ℕ → Snapshot
snap n = record { commitment = n ∷ []; bytes = n ∷ n ∷ [] }

-- blocks 3 and 5 in an archive of two
abbrev first : Archive
first = add_block (new_archive 2) 3 (snap 3)

abbrev second : Archive
second = add_block first 5 (snap 5)

third_evicts_first :
    (get_block (add_block second 9 (snap 9)) 3 ≡ none)
    × (get_block (add_block second 9 (snap 9)) 5 ≡ some (snap 5))
    × (get_block_height (add_block second 9 (snap 9)) ≡ (9, true))
unfolding get_block add_block new_archive record_block prune_oldest get_block_height
third_evicts_first = (refl, refl, refl)

first-IsValid : IsValid first
first-IsValid = add_block-IsValid (new_archive 2) 3 (snap 3) (new_archive-IsValid 2)

add_block-IsValid_example : IsValid second
add_block-IsValid_example = add_block-IsValid first 5 (snap 5) first-IsValid

new_archive-IsOrdered : IsOrdered (new_archive 2)
unfolding new_archive
new_archive-IsOrdered = record { positive = tt; oldest = tt }

first-IsOrdered : IsOrdered first
first-IsOrdered =
    add_block-IsOrdered (new_archive 2) 3 (snap 3) (new_archive-IsValid 2) new_archive-IsOrdered
      (omega arith)

second-IsOrdered : IsOrdered second
second-IsOrdered = add_block-IsOrdered first 5 (snap 5) first-IsValid first-IsOrdered (omega arith)

second-IsValid : IsValid second
second-IsValid = add_block-IsValid first 5 (snap 5) first-IsValid

-- block 4 comes after block 5: the full archive loses block 3
late_evicts_first :
    (get_block (add_block second 4 (snap 4)) 3 ≡ none)
    × (get_block (add_block second 4 (snap 4)) 4 ≡ some (snap 4))
    × (get_block (add_block second 4 (snap 4)) 5 ≡ some (snap 5))
unfolding get_block add_block new_archive record_block prune_oldest
late_evicts_first = (refl, refl, refl)

add_block-evicts_oldest_example :
    (oldest : ℕ) × IsEarliest second 4 oldest
    × ((j : ℕ)
        → get_block (add_block second 4 (snap 4)) j ≡ (
            if overflows second 4 && oldest == j
            then none
            else if 4 == j
            then some (snap 4)
            else get_block second j))
    × IsOrdered (add_block second 4 (snap 4))
add_block-evicts_oldest_example =
    add_block-evicts_oldest second 4 (snap 4) second-IsValid second-IsOrdered (omega arith)

add_block-evicts_newer_example :
    let a = add_block (add_block (add_block (new_archive 2) 0 (snap 0)) 5 (snap 5)) 7 (snap 7) in
    (get_block a 0 ≡ some (snap 0)) × (get_block a 5 ≡ none) × (get_block a 7 ≡ some (snap 7))
add_block-evicts_newer_example =
    add_block-evicts_newer 5 7 (snap 0) (snap 5) (snap 7) (omega arith) (omega arith)
