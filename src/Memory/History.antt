-- ===== src/Memory/History.antt =====
-- state.go: the states of the past, `GetArchiveState`.
use verkle_trie.Prelude.{
  ℕ, ◌≡◌, refl, ◌∙◌, sym, ap, true, Option, none, some, [], Bytes, zeros, copy, Option-cases, inl,
  inr,
}
use mathlib.Core.Option.{some-injective}
use verkle_trie.Archive.{Snapshot, get_block}
use verkle_trie.Commit.{compress}
use verkle_trie.Snapshot.{Failure, restore}
use verkle_trie.Snapshot.Restores.{restore-guards}
use verkle_trie.State.{Env}
use verkle_trie.State.Proofs.{get_hash}
use verkle_trie.Trie
use verkle_trie.Trie.{Trie}
use verkle_trie.Trie.Laws.{IsValid, empty-IsValid}
use verkle_trie.Memory.{
  State, archived, get_archive_state, has_empty_storage, slots_of, all_zero, ArchiveFailure,
  no_block,
}

no_slots :
    (env : Env) (t : Trie env.ipa) (address : Bytes)
    → all_zero env t address (slots_of [] address) ≡ some true
unfolding all_zero slots_of
no_slots env t address = refl

module _ {env : Env} where
  -- the state that is restored into
  abbrev pub blank : State env → State env
  blank s = record {
    trie = Trie.empty env.ipa;
    archive = s.archive;
    written_slots = [];
    archive_max_size = s.archive_max_size;
  }

  -- the block has a snapshot
  pub get_archive_state_found :
      (s : State env) (block : ℕ) (snapshot : Snapshot) (t : Trie env.ipa) (error : Option Failure)
      → get_block s.archive block ≡ some snapshot
      → restore env.ipa (Trie.empty env.ipa) snapshot ≡ some (t, error)
      → get_archive_state env s block ≡ some (archived env (record (blank s) { trie = t }, error))
  unfolding get_archive_state
  get_archive_state_found s block snapshot t error e e' = rw (e, e') refl

  archived-guards :
      (s : State env) (error : Option Failure) (expected : Bytes)
      → (error ≡ none → compress env.ipa (Trie.commit env.ipa s.trie).0 ≡ expected)
      → (archived env (s, error)).0 ≡ none
      → compress env.ipa (Trie.commit env.ipa s.trie).0 ≡ expected
  archived-guards s none expected h e = h refl
  archived-guards s (some failure) expected h e = cc

  archived-state : (s : State env) (error : Option Failure) → (archived env (s, error)).1 ≡ s
  archived-state s none = refl
  archived-state s (some failure) = refl

  -- `GetArchiveState` of a block without a snapshot is the error for that. Of a block with one it
  -- does not panic, the state has a valid trie and shares the archive, and where there is no error
  -- its hash is the commitment of the snapshot.
  pub get_archive_state-guards :
      (s : State env) (block : ℕ)
      → (get_block s.archive block ≡ none → get_archive_state env s block ≡ some (some no_block, s))
        × ((snapshot : Snapshot)
            → get_block s.archive block ≡ some snapshot
            → (error : Option ArchiveFailure) × (r : State env) × (get_archive_state env s block
                ≡ some (error, r))
              × IsValid r.trie
              × (r.archive ≡ s.archive)
              × (error ≡ none → (get_hash env r.trie).0 ≡ copy (zeros 32) snapshot.commitment))
  unfolding get_archive_state get_hash
  get_archive_state-guards s block = (
    λ e. rw e refl,
    λ snapshot e.
        let (t, error, e', valid, guards) =
          restore-guards (Trie.empty env.ipa) snapshot empty-IsValid in
        let r : State env = record (blank s) { trie = t } in
        (
          (archived env (r, error)).0,
          r,
          get_archive_state_found s block snapshot t error e e'
              ∙ ap (λ x. some ((archived env (r, error)).0, x)) (archived-state r error),
          valid,
          refl,
          archived-guards r error (copy (zeros 32) snapshot.commitment) guards,
        ),
  )

  -- In every state that `GetArchiveState` returns, `HasEmptyStorage` is true for every address,
  -- whatever its storage holds.
  pub get_archive_state-has_empty_storage :
      (s r : State env) (block : ℕ) (address : Bytes)
      → get_archive_state env s block ≡ some (none, r)
      → has_empty_storage env r address ≡ some true
  unfolding has_empty_storage
  get_archive_state-has_empty_storage s r block address e =
      elim (Option-cases (get_block s.archive block)) [
        | inl missing ↦ let (absent, _) = get_archive_state-guards s block in cc (absent missing, e)
        | inr (snapshot, found) ↦
            let (t, error, e', _, _) = restore-guards (Trie.empty env.ipa) snapshot empty-IsValid in
            let same =
              ap (λ (x : Option ArchiveFailure × State env). x.1)
                (some-injective _ _
                  (sym (get_archive_state_found s block snapshot t error found e') ∙ e)) in
            let written : r.written_slots ≡ [] = sym (
              ap (λ (x : State env). x.written_slots)
                (sym (archived-state (record (blank s) { trie = t }) error) ∙ same)) in
            ap (λ w. all_zero env r.trie address (slots_of w address)) written
            ∙ no_slots env r.trie address
      ]
