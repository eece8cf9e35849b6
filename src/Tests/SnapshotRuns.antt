-- ===== src/Tests/SnapshotRuns.antt =====
-- Runs of the snapshots of state.go.
use verkle_trie.Prelude.{
  ◌+◌, ◌*◌, ◌≤◌, ◌≡◌, ◌↔◌, refl, List, tabulate, bytes_equal, bytes_equal-eq, ap, ◌∙◌, true,
  Bool-cases, inl, inr, All, Option, none, some, [], ◌∷◌, ◌++◌, Bytes, zeros, copy, length,
  be_value,
}
use verkle_trie.Archive.{Snapshot}
use verkle_trie.Commit.{compress}
use verkle_trie.Node.Shape.{IsKey}
use verkle_trie.Trie
use verkle_trie.Trie.{Trie}
use verkle_trie.Trie.Laws.{IsValid, empty-IsValid}
use verkle_trie.Trie.History.{latest}
use verkle_trie.Snapshot.{Failure, deserialize_trie, restore, wrong_length}
use verkle_trie.Snapshot.RoundTrip.{announced, deserialize_trie-total}
use verkle_trie.Snapshot.Restores.{restore-guards}
use verkle_trie.Commit
use verkle_trie.Commit.{Commitment, new_value, new_value_from_little_endian_bytes}
use verkle_trie.Embedding.{
  get_basic_data_key, get_storage_key, get_code_hash_key, get_trie_key, trie_stem,
}
use verkle_trie.Embedding.Keys.{get_basic_data_key-IsKey, get_storage_key-IsKey}
use verkle_trie.Trie.{Op, put, commits, run}
use verkle_trie.Trie.Contents.{written}
use verkle_trie.Snapshot.{create_snapshot}
use verkle_trie.Snapshot.Samples.{is_sampled}
use verkle_trie.Snapshot.Writes.{HasEntry}
use verkle_trie.Snapshot.Histories.{IsSampled, restore-create_snapshot}
use verkle_trie.Tests.Toy.{toy}

abbrev new_trie : Trie toy
new_trie = Trie.empty toy

-- bytes that announce two entries and end after one
abbrev cut_bytes : Bytes
cut_bytes = zeros 3 ++ (2 ∷ zeros 64)

refused : deserialize_trie toy new_trie cut_bytes ≡ some (new_trie, some wrong_length)
unfolding deserialize_trie be_value
refused = refl

deserialize_trie-total_example :
    (t : Trie toy) × (error : Option Failure) × (deserialize_trie toy new_trie cut_bytes
      ≡ some (t, error))
    × IsValid t
    × ((error ≡ none)
        ↔ ((4 ≤ length cut_bytes) × (length cut_bytes ≡ 4 + announced cut_bytes * 64)))
deserialize_trie-total_example = deserialize_trie-total new_trie cut_bytes empty-IsValid

abbrev snapshot : Snapshot
snapshot = record { commitment = zeros 32; bytes = zeros 4 }

restore-guards_example :
    (t : Trie toy) × (error : Option Failure) × (restore toy new_trie snapshot ≡ some (t, error))
    × IsValid t
    × (error ≡ none → compress toy (Trie.commit toy t).0 ≡ copy (zeros 32) snapshot.commitment)
restore-guards_example = restore-guards new_trie snapshot empty-IsValid

-- a history that writes two sampled keys
abbrev data_key : Bytes
data_key = get_basic_data_key toy (zeros 20)

abbrev pub slot_key : Bytes
slot_key = get_storage_key toy (zeros 20) (zeros 32)

abbrev pub history : List Op
history =
    put data_key (7 ∷ zeros 31)
    ∷ commits
    ∷ put slot_key (9 ∷ zeros 31)
    ∷ put data_key (8 ∷ zeros 31)
    ∷ []

data_key_sampled : is_sampled toy 256 0 data_key ≡ true
unfolding is_sampled bytes_equal get_basic_data_key get_trie_key trie_stem Commit.hash Commit.commit
    tabulate new_value new_value_from_little_endian_bytes
data_key_sampled = refl

pub slot_key_sampled : is_sampled toy 256 0 slot_key ≡ true
unfolding is_sampled bytes_equal get_basic_data_key get_storage_key get_code_hash_key get_trie_key
    trie_stem Commit.hash Commit.commit tabulate new_value new_value_from_little_endian_bytes
    be_value
slot_key_sampled = refl

pub history-IsSampled : IsSampled toy history
unfolding written latest
history-IsSampled = record {
  sampled = λ k len here. elim (Bool-cases (bytes_equal k data_key)) [
    | inl first ↦ ap (is_sampled toy 256 0) (bytes_equal-eq k data_key first) ∙ data_key_sampled
    | inr other ↦ elim (Bool-cases (bytes_equal k slot_key)) [
      | inl slot ↦ ap (is_sampled toy 256 0) (bytes_equal-eq k slot_key slot) ∙ slot_key_sampled
      | inr neither ↦ cc (rw (other, neither) at here)
    ]
  ];
  not_zero = λ k len here e. elim (Bool-cases (bytes_equal k data_key)) [
    | inl first ↦ cc (rw first at e)
    | inr other ↦ elim (Bool-cases (bytes_equal k slot_key)) [
      | inl slot ↦ cc (rw (other, slot) at e)
      | inr neither ↦ cc (rw (other, neither) at here)
    ]
  ];
}

pub history-HasEntry : All HasEntry history
history-HasEntry = (
  (get_basic_data_key-IsKey toy (zeros 20), refl),
  (
    tt,
    (
      (get_storage_key-IsKey toy (zeros 20) (zeros 32), refl),
      ((get_basic_data_key-IsKey toy (zeros 20), refl), tt),
    ),
  ),
)

pub length-compress : (c : Commitment toy) → length (compress toy c) ≡ 32
unfolding compress
length-compress c = refl

restore-create_snapshot_example :
    (t t' r : Trie toy) × (s : Snapshot) × (run toy (Trie.empty toy) history ≡ some t)
    × (create_snapshot toy t ≡ some (t', s))
    × (restore toy new_trie s ≡ some (r, none))
    × IsValid r
    × ((Trie.commit toy r).0 ≡ (Trie.commit toy t).0)
    × ((k : Bytes) → IsKey k → Trie.get toy r k ≡ Trie.get toy t k)
restore-create_snapshot_example =
    restore-create_snapshot history new_trie history-HasEntry history-IsSampled length-compress
