-- ===== src/Memory/Window.antt =====
-- state.go: the archive of a state to which the blocks 1, 2 and so on are applied.
use verkle_trie.Prelude.{
  ℕ, zero, suc, ◌+◌, ◌-◌, ◌<◌, ◌≡◌, refl, ◌∙◌, sym, ap, true, false, none, some, List, [], ◌∷◌,
  Bytes, zeros, length, take, get_elem?, All, arith, if◌then◌else◌,
}
use verkle_trie.Archive.{Snapshot, get_block}
use verkle_trie.Archive.Window.{is_recent, add_all, add_all-get_block}
use verkle_trie.State.{Env, Update}
use verkle_trie.State.View.{HasLengths, Views}
use verkle_trie.State.Changes.{applied}
use verkle_trie.State.Accounts.{empty-Views}
use verkle_trie.State.Proofs.{get_hash}
use verkle_trie.Memory.{State, new_state, apply, get_archive_state, no_block}
use verkle_trie.Memory.Blocks.{apply_lem}
use verkle_trie.Memory.History.{get_archive_state-guards}
use verkle_trie.Memory.Chain.{apply_all}

module _ (env : Env) where
  -- updates of blocks from `block` on
  unfoldable pub numbered : ℕ → List (Update env) → List (ℕ × Update env)
  numbered block [] = []
  numbered block (update ∷ updates) = (block, update) ∷ numbered (block + 1) updates

  abbrev pub HasSlotValues : Update env → Type 0
  HasSlotValues update = All (λ p. length p.2 ≡ 32) update.slots

  -- the state after `i` more updates
  abbrev After : State env → ℕ → List (Update env) → ℕ → Snapshot → Type 0
  After s block updates i snapshot =
      (s' : State env) × (apply_all env s (numbered block (take i updates)) ≡ some s')
      × (snapshot.commitment ≡ (get_hash env s'.trie).0)

  After-apply :
      (s s1 : State env) (block : ℕ) (u : Update env) (updates : List (Update env))
      (snapshot : Snapshot) (snapshots : List Snapshot)
      → apply env s block u ≡ some s1
      → snapshot.commitment ≡ (get_hash env s1.trie).0
      → ((i : ℕ)
          → i < length updates
          → (x : Snapshot) × (get_elem? snapshots i ≡ some x)
            × After s1 (block + 1) updates (suc i) x)
      → (i : ℕ) → i < suc (length updates)
      → (x : Snapshot) × (get_elem? (snapshot ∷ snapshots) i ≡ some x)
        × After s block (u ∷ updates) (suc i) x
  unfolding apply_all numbered
  After-apply s s1 block u updates snapshot snapshots e hash later zero h =
      (snapshot, refl, (s1, rw e refl, hash))
  After-apply s s1 block u updates snapshot snapshots e hash later (suc i) h =
      let (x, found, (s', run, c)) = later i (omega arith) in (x, found, (s', rw e run, c))

  -- Each block is archived with the hash of the state after it.
  apply_all-add_all :
      HasLengths env
      → (updates : List (Update env)) (s : State env) (f : Bytes → Bytes) (block : ℕ)
      → Views env s.trie f
      → All HasSlotValues updates
      → (s' : State env) × (snapshots : List Snapshot) × (apply_all env s (numbered block updates)
          ≡ some s')
        × (s'.archive ≡ add_all s.archive block snapshots)
        × (length snapshots ≡ length updates)
        × ((i : ℕ)
            → i < length updates
            → (snapshot : Snapshot) × (get_elem? snapshots i ≡ some snapshot)
              × After s block updates (suc i) snapshot)
  unfolding apply_all numbered add_all
  apply_all-add_all lengths [] s f block v h =
      (s, [], refl, refl, refl, λ i lt. absurd (omega arith))
  apply_all-add_all lengths (u ∷ updates) s f block v h =
      let (s1, snapshot, e1, v1, archived, hash, _) = apply_lem lengths s f block u v h.0 in
      let (s', snapshots, e, all, count, each_one) =
        apply_all-add_all lengths updates s1 (applied env f u) (block + 1) v1 h.1 in
      (
        s',
        snapshot ∷ snapshots,
        rw e1 e,
        all ∙ ap (λ a. add_all a (block + 1) snapshots) archived,
        ap suc count,
        After-apply s s1 block u updates snapshot snapshots e1 hash each_one,
      )

  -- The blocks 1, 2 and so on, with 32-byte slot values, are applied to a new state with no panic.
  -- Afterwards the archive has for each of the last 1000 blocks a snapshot whose commitment is the
  -- hash of the state after that block, and `GetArchiveState` of any other block is the error that
  -- there is none.
  pub apply_all-get_block :
      HasLengths env
      → (updates : List (Update env)) → All HasSlotValues updates
      → (s : State env) × (apply_all env (new_state env) (numbered 1 updates) ≡ some s)
        × ((j : ℕ)
            → is_recent 1000 (length updates) j ≡ true
            → (snapshot : Snapshot) × (sj : State env) × (get_block s.archive j ≡ some snapshot)
              × (apply_all env (new_state env) (numbered 1 (take j updates)) ≡ some sj)
              × (snapshot.commitment ≡ (get_hash env sj.trie).0))
        × ((j : ℕ)
            → is_recent 1000 (length updates) j ≡ false
            → get_archive_state env s j ≡ some (some no_block, s))
  apply_all-get_block lengths updates h =
      let (s, snapshots, e, archive, count, each_one) =
        apply_all-add_all lengths updates (new_state env) (λ k. zeros 32) 1 (empty-Views env) h in
      let found = λ (j : ℕ).
        ap (λ a. get_block a j) archive
        ∙ add_all-get_block 1000 snapshots j (omega arith)
        ∙ ap (λ n. if is_recent 1000 n j then get_elem? snapshots (j - 1) else none) count in
      (
        s,
        e,
        λ j recent.
            let back : suc (j - 1) ≡ j = ground arith in
            let (snapshot, at_j, (sj, run, hash)) = each_one (j - 1) (ground arith) in
            (
              snapshot,
              sj,
              (rw recent at (found j)) ∙ at_j,
              ap (λ i. apply_all env (new_state env) (numbered 1 (take i updates))) (sym back)
                  ∙ run,
              hash,
            ),
        λ j old. (get_archive_state-guards s j).0 (rw old at (found j)),
      )
