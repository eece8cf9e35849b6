-- ===== src/Memory/Recall.antt =====
-- state.go: `GetArchiveState` of a block that was archived.
use verkle_trie.Prelude.{
  ℕ, ◌<◌, ◌≡◌, refl, ◌∙◌, sym, ap, true, none, some, List, Bytes, All, length, ==_refl,
}
use mathlib.Core.Option.{some-injective}
use verkle_trie.Archive
use verkle_trie.Archive.{Snapshot, add_block, get_block}
use verkle_trie.Archive.Oldest.{IsOrdered, get_block-add_block}
use verkle_trie.Commit.{Commitment, compress}
use verkle_trie.Node.Shape.{IsKey}
use verkle_trie.Snapshot.{create_snapshot}
use verkle_trie.Snapshot.Writes.{HasEntry}
use verkle_trie.Snapshot.Histories.{IsSampled, restore-create_snapshot}
use verkle_trie.State.{Env}
use verkle_trie.Trie
use verkle_trie.Trie.{Trie, Op, run}
use verkle_trie.Trie.Laws.{IsValid}
use verkle_trie.Memory.{State, archive_current_state, get_archive_state}
use verkle_trie.Memory.History.{blank, get_archive_state_found}

module _ {env : Env} where
  archived_snapshot :
      (s : State env) (block : ℕ) (t : Trie env.ipa) (snapshot : Snapshot)
      → create_snapshot env.ipa s.trie ≡ some (t, snapshot)
      → archive_current_state env s block
        ≡ some (record s { trie = t; archive = add_block s.archive block snapshot })
  unfolding archive_current_state
  archived_snapshot s block t snapshot e = rw e refl

  -- In a valid archive that has blocks, all from 1 on, a block above them is archived and can be
  -- recalled: where the trie of the state is that of a history of writes of 32-byte values and of
  -- commits that writes sampled keys only and leaves none of them at zero, and compressed commitments
  -- have 32 bytes, `GetArchiveState` of the block returns no error, and a state with the commitment
  -- and the values of the trie.
  pub get_archive_state-archive_current_state :
      (s : State env) (block : ℕ) (ops : List Op)
      → Archive.Bounds.IsValid s.archive
      → IsOrdered s.archive
      → s.archive.has_blocks ≡ true
      → s.archive.max_block < block
      → run env.ipa (Trie.empty env.ipa) ops ≡ some s.trie
      → All HasEntry ops
      → IsSampled env.ipa ops
      → ((c : Commitment env.ipa) → length (compress env.ipa c) ≡ 32)
      → (s' r : State env) × (archive_current_state env s block ≡ some s')
        × (get_archive_state env s' block ≡ some (none, r))
        × IsValid r.trie
        × ((Trie.commit env.ipa r.trie).0 ≡ (Trie.commit env.ipa s.trie).0)
        × ((k : Bytes) → IsKey k → Trie.get env.ipa r.trie k ≡ Trie.get env.ipa s.trie k)
  get_archive_state-archive_current_state s block ops v o has above e h sampled size =
      let (t, t', r, snapshot, e', taken, restored, valid, digest, reads) =
        restore-create_snapshot {ipa = env.ipa} ops (Trie.empty env.ipa) h sampled size in
      let same : t ≡ s.trie = some-injective _ _ (sym e' ∙ e) in
      let s' : State env = record s { trie = t'; archive = add_block s.archive block snapshot } in
      let found : get_block s'.archive block ≡ some snapshot =
        get_block-add_block s.archive block snapshot v o has above block
        ∙ (rw (==_refl block) refl) in
      (
        s',
        record (blank s') { trie = r },
        archived_snapshot s block t' snapshot (ap (create_snapshot env.ipa) (sym same) ∙ taken),
        get_archive_state_found s' block snapshot r none found restored,
        valid,
        digest ∙ ap (λ x. (Trie.commit env.ipa x).0) same,
        λ k len. reads k len ∙ ap (λ x. Trie.get env.ipa x k) same,
      )
