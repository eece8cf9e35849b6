-- ===== src/Memory/Past.antt =====
-- state.go: a state of the past that `GetArchiveState` returns is the state that there was.
use verkle_trie.Prelude.{
  ℕ, zero, suc, slice, ◌+◌, ◌≡◌, ◌⊎◌, inr, refl, ◌∙◌, sym, ap, true, Option, none, some,
  >>=-eq-some, ◌>>=◌, List, [], ◌∷◌, Bytes, IsByte, All, bytes_equal, length, take, subst,
}
use mathlib.Core.Option.{some-injective}
use verkle_trie.Archive.{Snapshot, get_block}
use verkle_trie.Archive.Held.{IsHeld, add_block-IsHeld, get_block-IsHeld, new_archive-IsHeld}
use verkle_trie.Archive.Window.{is_recent}
use verkle_trie.Commit
use verkle_trie.Commit.{Commitment, compress}
use verkle_trie.Commit.Encoding.{IsStandard, IsBytes32}
use verkle_trie.Commit.Binding.{Break, and_then}
use verkle_trie.Embedding.{get_basic_data_key, get_code_hash_key, get_storage_key}
use verkle_trie.Snapshot.{Failure, create_snapshot, restore}
use verkle_trie.Snapshot.Binding.{restore-binding}
use verkle_trie.Snapshot.Bytes32.{create_snapshot-bytes}
use verkle_trie.Snapshot.Restores.{restore-guards}
use verkle_trie.State.{
  Env, Update, apply_to_trie, get_nonce, get_balance, get_code_hash, get_storage,
}
use verkle_trie.State.Bytes32.{
  HasTypes, IsTyped, get_basic_data_key-IsBytes32, get_code_hash_key-IsBytes32,
  get_storage_key-IsBytes32,
}
use verkle_trie.State.Proofs.{get_hash}
use verkle_trie.State.Reached.{apply_to_trie-IsReached}
use verkle_trie.State.View.{HasLengths}
use verkle_trie.Trie
use verkle_trie.Trie.{Trie}
use verkle_trie.Trie.Laws.{empty-IsValid}
use verkle_trie.Trie.Reached.{IsReached, empty-IsReached, commit-IsReached}
use verkle_trie.Memory.{
  State, ArchiveFailure, new_state, track_all, archived, archive_current_state, apply,
  get_archive_state,
}
use verkle_trie.Memory.Chain.{apply_all}
use verkle_trie.Memory.History.{blank, get_archive_state_found}
use verkle_trie.Memory.Window.{numbered, HasSlotValues, apply_all-get_block}

abbrev HasSnapshotBytes : Snapshot → Type 0
HasSnapshotBytes s = All IsByte s.bytes

slot_values :
    (slots : List (Bytes × Bytes × Bytes))
    → All (λ (p : Bytes × Bytes × Bytes). All IsByte p.1 × IsBytes32 p.2) slots
    → All (λ (p : Bytes × Bytes × Bytes). length p.2 ≡ 32) slots
slot_values [] h = tt
slot_values (p ∷ slots) h = (h.0.1.0, slot_values slots h.1)

module _ {env : Env} where
  -- the trie is that of a history, and the snapshots are bytes
  record HasHistory (s : State env) : Type 0 where
    reached : IsReached s.trie
    held : IsHeld HasSnapshotBytes s.archive

  archive-HasHistory :
      (s s' : State env) (block : ℕ)
      → HasHistory s
      → archive_current_state env s block ≡ some s'
      → HasHistory s'
  unfolding archive_current_state
  archive-HasHistory s s' block h e =
      let ((t, snapshot), made, end) = >>=-eq-some (create_snapshot env.ipa s.trie) _ e in
      let (committed, bytes) = create_snapshot-bytes s.trie t snapshot h.reached made in
      subst HasHistory (some-injective _ _ end) (record {
        reached = subst IsReached (sym committed) (commit-IsReached s.trie h.reached);
        held = add_block-IsHeld HasSnapshotBytes s.archive block snapshot bytes h.held;
      })

  module _ (types : HasTypes env) where
    apply-HasHistory :
        (s s' : State env) (block : ℕ) (u : Update env)
        → IsTyped u
        → HasHistory s
        → apply env s block u ≡ some s'
        → HasHistory s'
    unfolding apply
    apply-HasHistory s s' block u typed h e =
        let (t, changed, end) = >>=-eq-some (apply_to_trie env s.trie u) _ e in
        archive-HasHistory
          (record s { trie = t; written_slots = track_all s.written_slots u.slots }) s' block
          (record {
            reached = apply_to_trie-IsReached types s.trie t u typed h.reached changed;
            held = h.held;
          })
          end

    apply_all-HasHistory :
        (updates : List (Update env)) (s s' : State env) (block : ℕ)
        → All IsTyped updates
        → HasHistory s
        → apply_all env s (numbered env block updates) ≡ some s'
        → HasHistory s'
    unfolding apply_all numbered
    apply_all-HasHistory [] s s' block typed h e = subst HasHistory (some-injective _ _ e) h
    apply_all-HasHistory (u ∷ updates) s s' block typed h e =
        let (s1, first, rest) = >>=-eq-some (apply env s block u) _ e in
        apply_all-HasHistory updates s1 s' (block + 1) typed.1
          (apply-HasHistory s s1 block u typed.0 h first) rest

  new_state-HasHistory : HasHistory (new_state env)
  new_state-HasHistory = record {
    reached = empty-IsReached;
    held = new_archive-IsHeld HasSnapshotBytes 1000;
  }

  typed-HasSlotValues :
      (updates : List (Update env)) → All IsTyped updates → All (HasSlotValues env) updates
  typed-HasSlotValues [] h = tt
  typed-HasSlotValues (u ∷ updates) h =
      (slot_values u.slots h.0.slots, typed-HasSlotValues updates h.1)

  take-All :
      (j : ℕ) (updates : List (Update env)) → All IsTyped updates → All IsTyped (take j updates)
  take-All zero updates h = tt
  take-All (suc j) [] h = tt
  take-All (suc j) (u ∷ updates) h = (h.0, take-All j updates h.1)

  archived-none :
      (s r : State env) (error : Option Failure)
      → archived env (s, error) ≡ (none, r)
      → (error ≡ none) × (s.trie ≡ r.trie)
  archived-none s r none e = (refl, ap (λ (p : Option ArchiveFailure × State env). p.1.trie) e)
  archived-none s r (some failure) e = cc (ap (λ (p : Option ArchiveFailure × State env). p.0) e)

  -- what `GetArchiveState` has restored where it returns no error
  restored-none :
      (s r : State env) (block : ℕ) (snapshot : Snapshot)
      → get_block s.archive block ≡ some snapshot
      → get_archive_state env s block ≡ some (none, r)
      → restore env.ipa (Trie.empty env.ipa) snapshot ≡ some (r.trie, none)
  restored-none s r block snapshot found e =
      let (t, error, e', _, _) = restore-guards (Trie.empty env.ipa) snapshot empty-IsValid in
      let (fine, same) =
        archived-none (record (blank s) { trie = t }) r error
          (some-injective _ _
            (sym (get_archive_state_found s block snapshot t error found e') ∙ e)) in
      e' ∙ ap (λ x. some (x, error)) same ∙ ap (λ x. some (r.trie, x)) fine

  -- Where commitments and scalars are standard, the other packages return values of their types, and
  -- `Compress` gives 32 bytes, the same only for commitments that `Equal` takes for the same: after
  -- the blocks 1, 2 and so on with typed updates are applied to a new state, a state that
  -- `GetArchiveState` of one of the last 1000 blocks returns without an error answers `GetNonce`,
  -- `GetBalance`, `GetCodeHash` and `GetStorage` of every account and every slot as the state after
  -- that block did, or there is a break of the commitment scheme.
  pub get_archive_state-binding :
      IsStandard env.ipa
      → HasLengths env
      → HasTypes env
      → ((c : Commitment env.ipa) → length (compress env.ipa c) ≡ 32)
      → ((c d : Commitment env.ipa)
          → bytes_equal (compress env.ipa c) (compress env.ipa d) ≡ true
          → Commit.equal env.ipa c d ≡ true)
      → (updates : List (Update env)) (j : ℕ) (s sj r : State env) (address key : Bytes)
      → All IsTyped updates
      → All IsByte key
      → is_recent 1000 (length updates) j ≡ true
      → apply_all env (new_state env) (numbered env 1 updates) ≡ some s
      → apply_all env (new_state env) (numbered env 1 (take j updates)) ≡ some sj
      → get_archive_state env s j ≡ some (none, r)
      → Break env.ipa
        ⊎ ((get_nonce env r.trie address ≡ get_nonce env sj.trie address)
            × (get_balance env r.trie address ≡ get_balance env sj.trie address)
            × (get_code_hash env r.trie address ≡ get_code_hash env sj.trie address)
            × (get_storage env r.trie address key ≡ get_storage env sj.trie address key))
  unfolding get_nonce get_balance get_code_hash get_storage get_hash
  get_archive_state-binding standard lengths types size canonical updates j s sj r address key typed
        bytes recent e ej past =
      let (s1, e1, recent_blocks, _) =
        apply_all-get_block env lengths updates (typed-HasSlotValues updates typed) in
      let (snapshot, sj1, found1, run_j, hash) = recent_blocks j recent in
      let same_s : s1 ≡ s = some-injective _ _ (sym e1 ∙ e) in
      let same_sj : sj1 ≡ sj = some-injective _ _ (sym run_j ∙ ej) in
      let found : get_block s.archive j ≡ some snapshot =
        ap (λ (x : State env). get_block x.archive j) (sym same_s) ∙ found1 in
      let whole =
        apply_all-HasHistory types updates (new_state env) s 1 typed new_state-HasHistory e in
      let before =
        apply_all-HasHistory types (take j updates) (new_state env) sj 1 (take-All j updates typed)
          new_state-HasHistory ej in
      let reads : (k : Bytes)
          → IsBytes32 k
          → Break env.ipa ⊎ (Trie.get env.ipa r.trie k ≡ Trie.get env.ipa sj.trie k) =
        λ k sized.
          restore-binding standard before.reached.history sj.trie (Trie.empty env.ipa) r.trie
            snapshot k before.reached.typed
            (get_block-IsHeld HasSnapshotBytes s.archive j snapshot whole.held found) sized size
            canonical before.reached.runs
            (hash ∙ ap (λ (x : State env). compress env.ipa (Trie.commit env.ipa x.trie).0) same_sj)
            (restored-none s r j snapshot found past) in
      and_then
        (reads (get_basic_data_key env.ipa address) (get_basic_data_key-IsBytes32 types address))
        λ basic.
          and_then
            (reads (get_code_hash_key env.ipa address) (get_code_hash_key-IsBytes32 types address))
            λ code_hash.
              and_then
                (reads (get_storage_key env.ipa address key)
                  (get_storage_key-IsBytes32 types address key bytes))
                λ slot. inr (
                  ap (λ v. v >>= λ value. some (slice 8 16 value)) basic,
                  ap (λ v. v >>= λ value. some (env.new_from_bytes (slice 16 32 value))) basic,
                  code_hash,
                  slot,
                )
