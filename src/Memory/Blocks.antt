-- ===== src/Memory/Blocks.antt =====
-- state.go: `Apply` with its archiving, and `GetArchiveState`.
use verkle_trie.Prelude.{ℕ, ◌≡◌, refl, ◌∙◌, sym, ap, some, Bytes, length, All}
use verkle_trie.Archive.{Snapshot, add_block}
use verkle_trie.Commit.{compress}
use verkle_trie.Snapshot.{create_snapshot, serialize_trie, serialize_entries}
use verkle_trie.Snapshot.Samples.{collect_all-Samples}
use verkle_trie.State.{Env, Update}
use verkle_trie.State.View.{HasLengths, Views}
use verkle_trie.State.Changes.{applied, apply_to_trie-Writes}
use verkle_trie.State.Proofs.{get_hash, commit-Views}
use verkle_trie.Trie
use verkle_trie.Trie.{Trie}
use verkle_trie.Trie.Laws.{commit_lem}
use verkle_trie.Memory.{State, track_all, apply}

module _ {env : Env} where
  -- a snapshot is of the commitment and of the values at hand
  pub create_snapshot-total :
      (t : Trie env.ipa) (f : Bytes → Bytes)
      → Views env t f
      → (s : Snapshot) × (create_snapshot env.ipa t ≡ some ((Trie.commit env.ipa t).1, s))
        × (s.commitment ≡ (get_hash env t).0)
  unfolding create_snapshot serialize_trie get_hash
  create_snapshot-total t f v =
      let w = commit-Views env v in
      let (r, e, _) = collect_all-Samples (Trie.commit env.ipa t).1 f w.reads w.sized in
      let bytes = serialize_entries r in
      (record { commitment = (get_hash env t).0; bytes = bytes }, rw e refl, refl)

  -- `Apply` of a block on a valid state, with 32-byte slot values, does not panic. It changes the
  -- values as `applied` says, tracks the update's slots, and archives under the block a snapshot
  -- with the hash of the state that it leaves.
  pub apply_lem :
      HasLengths env
      → (s : State env) (f : Bytes → Bytes) (block : ℕ) (update : Update env) → Views env s.trie f
      → All (λ p. length p.2 ≡ 32) update.slots
      → (s' : State env) × (snapshot : Snapshot) × (apply env s block update ≡ some s')
        × Views env s'.trie (applied env f update)
        × (s'.archive ≡ add_block s.archive block snapshot)
        × (snapshot.commitment ≡ (get_hash env s'.trie).0)
        × (s'.written_slots ≡ track_all s.written_slots update.slots)
  unfolding apply get_hash
  apply_lem lengths s f block update v h =
      let (t, e, w) = apply_to_trie-Writes env lengths s.trie f update v h in
      let (snapshot, e', c) = create_snapshot-total t (applied env f update) w in
      let (_, _, _, again) = commit_lem t w.valid in
      (
        record {
          trie = (Trie.commit env.ipa t).1;
          archive = add_block s.archive block snapshot;
          written_slots = track_all s.written_slots update.slots;
          archive_max_size = s.archive_max_size;
        },
        snapshot,
        rw (e, e') refl,
        commit-Views env w,
        refl,
        c ∙ sym (ap (compress env.ipa) again),
        refl,
      )
