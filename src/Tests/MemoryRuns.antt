-- ===== src/Tests/MemoryRuns.antt =====
-- Runs of the whole state of state.go.
use verkle_trie.Prelude.{
  copy, arith, ◌≡◌, refl, true, false, Option, none, some, [], ◌∷◌, ◌++◌, Bytes, zeros, be_value,
  bytes_equal,
}
use verkle_trie.Archive.{Archive, Snapshot, add_block, get_block}
use verkle_trie.Commit
use verkle_trie.Commit.{compress}
use verkle_trie.Snapshot
use verkle_trie.Snapshot.{create_snapshot, Failure, get_meta_data, restore, verify_part}
use verkle_trie.Snapshot.Parts.{
  ok, get_snapshot_verifier, verify_root_proof, get_root_proof, error_of, verify_part-restore,
}
use verkle_trie.State.View.{Views}
use verkle_trie.State.Accounts.{empty-Views}
use verkle_trie.State.Proofs.{get_hash}
use verkle_trie.Trie
use verkle_trie.Trie.{Trie}
use verkle_trie.Trie.Laws.{IsValid}
use verkle_trie.Memory.{
  State, ArchiveFailure, no_block, new_state, has_empty_storage, get_archive_state,
}
use verkle_trie.Memory.History.{get_archive_state-guards, get_archive_state-has_empty_storage}
use verkle_trie.Memory.Export.{
  Writer, Appends, ExportFailure, framed, export_state, export_state-written,
}
use verkle_trie.Tests.Toy.{toy}
use verkle_trie.Archive.{new_archive, record_block}
use verkle_trie.Archive.Bounds
use verkle_trie.Archive.Bounds.{new_archive-IsValid, add_block-IsValid}
use verkle_trie.Archive.Oldest.{IsOrdered, add_block-IsOrdered}
use verkle_trie.Node.Shape.{IsKey}
use verkle_trie.Trie.{run}
use verkle_trie.Trie.History.{run-eq-latest}
use verkle_trie.Snapshot.Writes.{HasEntry-HasKey}
use verkle_trie.Memory.{archive_current_state}
use verkle_trie.Memory.Recall.{get_archive_state-archive_current_state}
use verkle_trie.Tests.SnapshotRuns.{history, history-IsSampled, history-HasEntry, length-compress}
use verkle_trie.Tests.StateRuns.{env, account, new_trie}

abbrev blank : Bytes → Bytes
blank k = zeros 32

abbrev start : State env
start = new_state env

-- the snapshot of an empty trie, and an archive with it
abbrev snapshot : Snapshot
snapshot = record { commitment = zeros 32; bytes = zeros 4 }

abbrev past : State env
past = record start { archive = record start.archive { snapshots = (3, snapshot) ∷ [] } }

restored : get_archive_state env past 3 ≡ some (none, record start { archive = past.archive })
unfolding get_archive_state get_block Snapshot.restore Snapshot.deserialize_trie
    Snapshot.check_restored Commit.identity compress Trie.commit be_value bytes_equal
restored = refl

get_archive_state-has_empty_storage_example :
    has_empty_storage env (record start { archive = past.archive }) account ≡ some true
get_archive_state-has_empty_storage_example =
    get_archive_state-has_empty_storage past (record start { archive = past.archive }) 3 account
      restored

verify_part-restore_example :
    (get_snapshot_verifier (get_meta_data snapshot) ≡ ok (zeros 32))
    × (verify_root_proof (zeros 32) snapshot ≡ ok (get_root_proof snapshot))
    × (verify_part toy (zeros 32) 0 (zeros 32) (zeros 4) ≡ error_of (restore toy new_trie snapshot))
verify_part-restore_example = verify_part-restore new_trie snapshot refl

-- a writer that keeps what it is given
abbrev buffer : Writer
buffer = record { Out = Bytes; write = λ out bytes. (out ++ bytes, false) }

buffer-Appends : Appends buffer
buffer-Appends = record { written = λ out. out; appends = λ out bytes e. refl }

export_state-written_example :
    (t : Trie toy) × (out : Bytes) × (error : Option ExportFailure) × (hash : Bytes)
    × (s : Snapshot) × (export_state buffer env new_trie [] ≡ some (t, out, error, hash))
    × Views env t blank
    × (create_snapshot env.ipa (get_hash env new_trie).1 ≡ some (t, s))
    × (s.commitment ≡ (get_hash env new_trie).0)
    × (error ≡ none
        → (hash ≡ (get_hash env new_trie).0)
          × (buffer-Appends.written out ≡ buffer-Appends.written [] ++ framed s))
    × ((kind : ExportFailure) → error ≡ some kind → hash ≡ zeros 32)
export_state-written_example =
    export_state-written buffer buffer-Appends env new_trie blank [] (empty-Views env)

get_archive_state-guards_example :
    (get_block past.archive 3 ≡ none → get_archive_state env past 3 ≡ some (some no_block, past))
    × ((s : Snapshot)
        → get_block past.archive 3 ≡ some s
        → (error : Option ArchiveFailure) × (r : State env) × (get_archive_state env past 3
            ≡ some (error, r))
          × IsValid r.trie
          × (r.archive ≡ past.archive)
          × (error ≡ none → (get_hash env r.trie).0 ≡ copy (zeros 32) s.commitment))
get_archive_state-guards_example = get_archive_state-guards past 3

-- an archive with block 3, and a state of the history
abbrev recorded : Archive
recorded = add_block (new_archive 1000) 3 snapshot

recorded-IsValid : Bounds.IsValid recorded
recorded-IsValid = add_block-IsValid (new_archive 1000) 3 snapshot (new_archive-IsValid 1000)

pub new_archive-IsOrdered : IsOrdered (new_archive 1000)
unfolding new_archive
new_archive-IsOrdered = record { positive = tt; oldest = tt }

recorded-IsOrdered : IsOrdered recorded
recorded-IsOrdered =
    add_block-IsOrdered (new_archive 1000) 3 snapshot (new_archive-IsValid 1000)
      new_archive-IsOrdered (omega arith)

recorded_blocks : (recorded.has_blocks ≡ true) × (recorded.max_block ≡ 3)
unfolding add_block record_block new_archive
recorded_blocks = (refl, refl)

history-run : (t : Trie toy) × (run toy (Trie.empty toy) history ≡ some t)
history-run =
    let (t, e, _, _) = run-eq-latest history (HasEntry-HasKey history history-HasEntry) in (t, e)

abbrev current : State env
current = record {
  trie = history-run.0;
  archive = recorded;
  written_slots = [];
  archive_max_size = 1000;
}

get_archive_state-archive_current_state_example :
    (s r : State env) × (archive_current_state env current 4 ≡ some s)
    × (get_archive_state env s 4 ≡ some (none, r))
    × IsValid r.trie
    × ((Trie.commit toy r.trie).0 ≡ (Trie.commit toy current.trie).0)
    × ((k : Bytes) → IsKey k → Trie.get toy r.trie k ≡ Trie.get toy current.trie k)
get_archive_state-archive_current_state_example =
    get_archive_state-archive_current_state current 4 history recorded-IsValid recorded-IsOrdered
      recorded_blocks.0 (omega (arith, recorded_blocks)) history-run.1 history-HasEntry
      history-IsSampled length-compress
