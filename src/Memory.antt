-- ===== src/Memory.antt =====
-- memory/state.go: the whole `State`, a trie with its archive and the storage slots that were written.
pub mod Slots
pub mod Blocks
pub mod History
pub mod Recall
pub mod Chain
pub mod Window
pub mod Past
pub mod Export
use verkle_trie.Prelude.{
  ℕ, ◌+◌, ◌*◌, ◌%◌, ◌^◌, Bool, true, false, not, ◌||◌, Option, none, some, ◌>>=◌, List, [], ◌∷◌,
  ◌++◌, Bytes, be32, bytes_equal, length, zeros, if◌then◌else◌,
}
use verkle_trie.Archive.{
  Archive, Snapshot, new_archive, add_block, get_block, get_block_height, get_memory_size,
}
use verkle_trie.Snapshot.{Failure, create_snapshot, restore, serialize_trie, get_meta_data}
use verkle_trie.Snapshot.Parts.{Proof}
use verkle_trie.Commit.{compress}
use verkle_trie.State.{Env, Update, apply_to_trie, get_storage}
use verkle_trie.State.Proofs.{get_hash}
use verkle_trie.Trie
use verkle_trie.Trie.{Trie}

-- `map[Address]map[Key]bool`, in which every value is true: the keys of each address
abbrev pub WrittenSlots : Type 0
WrittenSlots = List (Bytes × List Bytes)

-- `writtenSlots[address]`, empty where the address is missing
unfoldable pub slots_of : WrittenSlots → Bytes → List Bytes
slots_of [] address = []
slots_of ((a, keys) ∷ written) address =
    let rest = slots_of written address in if bytes_equal a address then keys else rest

unfoldable pub contains : List Bytes → Bytes → Bool
contains [] key = false
contains (k ∷ keys) key = bytes_equal k key || contains keys key

-- a key is put into a set
unfoldable pub add_key : List Bytes → Bytes → List Bytes
unfolding contains
add_key keys key = if contains keys key then keys else key ∷ keys

-- `writtenSlots[account][key] = true`, where the inner map is made first if it is nil
unfoldable pub track : WrittenSlots → Bytes → Bytes → WrittenSlots
unfolding add_key
track [] account key = (account, key ∷ []) ∷ []
track ((a, keys) ∷ written) account key =
    let rest = track written account key in
    if bytes_equal a account then (a, add_key keys key) ∷ written else (a, keys) ∷ rest

-- the second half of the loop over the slots of an update
unfoldable pub track_all : WrittenSlots → List (Bytes × Bytes × Bytes) → WrittenSlots
unfolding track
track_all written [] = written
track_all written ((account, key, value) ∷ slots) = track_all (track written account key) slots

pub record State (env : Env) : Type 0 where
  pub trie : Trie env.ipa
  pub archive : Archive
  pub written_slots : WrittenSlots
  pub archive_max_size : ℕ

-- The parts of `common.MemoryFootprint` that the state reports.
pub record Footprint : Type 0 where
  pub base : ℕ
  pub trie : ℕ
  pub archive : ℕ
  pub written_slots : ℕ

-- `uint64` sums
abbrev pub u64_mod : ℕ
u64_mod = 2 ^ 64

unfoldable pub slots_size : WrittenSlots → ℕ
slots_size [] = 0
slots_size ((a, keys) ∷ written) = (length keys * 40 + slots_size written) % u64_mod

-- the errors of `GetArchiveState`
pub data ArchiveFailure : Type 0 where
  no_block : ArchiveFailure
  not_restored : Failure → ArchiveFailure

module _ (env : Env) where
  -- `newState`
  abbrev pub new_state : State env
  new_state = record {
    trie = Trie.empty env.ipa;
    archive = new_archive 1000;
    written_slots = [];
    archive_max_size = 1000;
  }

  -- `for key := range slots { if value != zero { return false } }`
  unfoldable pub all_zero : Trie env.ipa → Bytes → List Bytes → Option Bool
  all_zero t address [] = some true
  all_zero t address (key ∷ keys) =
      let rest = all_zero t address keys in
      get_storage env t address key >>= λ value.
      if not (bytes_equal value (zeros 32)) then some false else rest

  unfoldable pub has_empty_storage : State env → Bytes → Option Bool
  unfolding all_zero slots_of
  has_empty_storage s address = all_zero s.trie address (slots_of s.written_slots address)

  unfoldable pub archive_current_state : State env → ℕ → Option (State env)
  archive_current_state s block = do
    r ← create_snapshot env.ipa s.trie
    some (record s { trie = r.0; archive = add_block s.archive block r.1 })

  unfoldable pub apply : State env → ℕ → Update env → Option (State env)
  unfolding track_all archive_current_state
  apply s block update = do
    t ← apply_to_trie env s.trie update
    archive_current_state
        (record s { trie = t; written_slots = track_all s.written_slots update.slots }) block

  -- `Restore` on a state: its trie is replaced, its written slots are left
  unfoldable pub restore_state : State env → Snapshot → Option (State env × Option Failure)
  restore_state s snapshot = do
    r ← restore env.ipa s.trie snapshot
    some (record s { trie = r.0 }, r.1)

  abbrev pub archived : State env × Option Failure → Option ArchiveFailure × State env
  archived (s, none) = (none, s)
  archived (s, some failure) = (some (not_restored failure), s)

  -- `GetProof`, with the commitment cached
  unfoldable pub get_proof : State env → State env × Proof
  get_proof s =
      let r = Trie.commit env.ipa s.trie in
      (record s { trie = r.1 }, record { commitment = compress env.ipa r.0 })

  -- the rest of `GetArchiveState`, from what the archive has for the block
  unfoldable pub restore_archived :
      State env → Option Snapshot → Option (Option ArchiveFailure × State env)
  unfolding restore_state
  restore_archived s none = some (some no_block, s)
  restore_archived s (some snapshot) =
      restore_state
        (record {
          trie = Trie.empty env.ipa;
          archive = s.archive;
          written_slots = [];
          archive_max_size = s.archive_max_size;
        })
        snapshot
      >>= λ r. some (archived r)

  -- A state of its own that shares the archive, or an error. The source returns no state beside an
  -- error.
  unfoldable pub get_archive_state : State env → ℕ → Option (Option ArchiveFailure × State env)
  unfolding restore_archived
  get_archive_state s block = restore_archived s (get_block s.archive block)

  -- the height, and whether the archive is empty
  unfoldable pub get_archive_block_height : State env → ℕ × Bool
  get_archive_block_height s =
      let r = get_block_height s.archive in if not r.1 then (0, true) else (r.0, false)

  unfoldable pub get_memory_footprint : State env → Option Footprint
  unfolding slots_size
  get_memory_footprint s = do
    bytes ← serialize_trie env.ipa s.trie
    some (record {
      base = 48;
      trie = length bytes;
      archive = get_memory_size s.archive;
      written_slots = (slots_size s.written_slots + length s.written_slots * 24) % u64_mod;
    })
