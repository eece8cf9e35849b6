-- ===== src/Archive.antt =====
-- memory/state.go: `vtArchive`, the snapshots of past blocks, of which a bounded number is kept.
pub mod Entries
pub mod Bounds
pub mod Oldest
pub mod Evicted
pub mod Window
pub mod Held
use verkle_trie.Prelude.{
  ℕ, zero, suc, ◌+◌, ◌≡◌, Bool, true, false, not, ◌&&◌, ◌||◌, Option, none, some, List, [], ◌∷◌,
  Bytes, length, ltb, ◌==◌, if◌then◌else◌,
}

-- `vtSnapshot`
pub record Snapshot : Type 0 where
  pub commitment : Bytes
  pub bytes : Bytes

-- `map[uint64]*vtSnapshot`, as an association list in which a block stands once
abbrev pub Entries : Type 0
Entries = List (ℕ × Snapshot)

-- `a.snapshots[block]`
unfoldable pub lookup : Entries → ℕ → Option Snapshot
lookup [] block = none
lookup ((b, s) ∷ m) block = if b == block then some s else lookup m block

-- `a.snapshots[block] = snapshot`
unfoldable pub insert : ℕ → Snapshot → Entries → Entries
insert block s [] = (block, s) ∷ []
insert block s ((b, t) ∷ m) = if b == block then (block, s) ∷ m else (b, t) ∷ insert block s m

-- `delete(a.snapshots, block)`
unfoldable pub remove : ℕ → Entries → Entries
remove block [] = []
remove block ((b, t) ∷ m) = if b == block then m else (b, t) ∷ remove block m

-- `maxSize` is an int that the program sets to 1000; 0 is no limit.
pub record Archive : Type 0 where
  pub snapshots : Entries
  pub max_block : ℕ
  pub has_blocks : Bool
  pub max_size : ℕ
  pub oldest_block : ℕ

unfoldable pub new_archive : ℕ → Archive
new_archive max_size = record {
  snapshots = [];
  max_block = 0;
  has_blocks = false;
  max_size = max_size;
  oldest_block = 0;
}

-- the loop of `pruneOldest` over the keys of the map
unfoldable pub least_below : ℕ → Entries → ℕ
least_below newest [] = newest
least_below newest ((b, s) ∷ m) = least_below (if ltb b newest then b else newest) m

unfoldable pub prune_oldest : Archive → Archive
unfolding remove least_below
prune_oldest a =
    if length a.snapshots == 0
    then a
    else (let kept = remove a.oldest_block a.snapshots in
        record a { snapshots = kept; oldest_block = least_below a.max_block kept })

-- `addBlock` up to the pruning
unfoldable pub record_block : Archive → ℕ → Snapshot → Archive
unfolding insert
record_block a block s =
    let newest = not a.has_blocks || ltb a.max_block block in
    let has_blocks = if newest then true else a.has_blocks in
    let oldest = not has_blocks || ltb block a.oldest_block || a.oldest_block == 0 in
    record a {
      snapshots = insert block s a.snapshots;
      max_block = if newest then block else a.max_block;
      has_blocks = has_blocks;
      oldest_block = if oldest then block else a.oldest_block;
    }

unfoldable pub add_block : Archive → ℕ → Snapshot → Archive
add_block a block s =
    let a' = record_block a block s in
    if ltb 0 a'.max_size && ltb a'.max_size (length a'.snapshots) then prune_oldest a' else a'

unfoldable pub get_block : Archive → ℕ → Option Snapshot
unfolding lookup
get_block a block = lookup a.snapshots block

unfoldable pub get_block_height : Archive → ℕ × Bool
get_block_height a = (a.max_block, a.has_blocks)

-- the sum wraps at 2 ^ 64, which no memory reaches
unfoldable pub memory_size : Entries → ℕ
memory_size [] = 0
memory_size ((b, s) ∷ m) = length s.commitment + length s.bytes + 16 + memory_size m

unfoldable pub get_memory_size : Archive → ℕ
unfolding memory_size
get_memory_size a = memory_size a.snapshots
