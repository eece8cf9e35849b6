-- ===== src/Snapshot.antt =====
-- memory/state.go: the bytes of a trie, `CreateSnapshot`, `Restore` and the snapshot's verifier.
pub mod RoundTrip
pub mod Restores
pub mod Parts
pub mod Samples
pub mod Writes
pub mod Histories
pub mod Binding
pub mod Lost
pub mod Bytes32
use verkle_trie.Prelude.{
  ℕ, zero, suc, ◌+◌, ◌*◌, ◌==◌, Bool, true, false, not, Option, none, some, ◌>>=◌, List, [], ◌∷◌,
  ◌++◌, Bytes, be_value, be32, bytes_equal, length, take, drop, slice, copy, zeros, ltb, tabulate,
  if◌then◌else◌,
}
use verkle_trie.Archive.{Snapshot}
use verkle_trie.Commit
use verkle_trie.Commit.{Ipa, compress}
use verkle_trie.Embedding.{
  get_basic_data_key, get_code_hash_key, get_code_chunk_key, get_storage_key,
}
use verkle_trie.Trie
use verkle_trie.Trie.{Trie}
use verkle_trie.Witness.{Storage, insert}

-- the errors of `Restore` and of the verifier
pub data Failure : Type 0 where
  metadata_too_short too_short wrong_length commitment_mismatch proof_mismatch : Failure
  root_proof_mismatch invalid_part : Failure

-- each key and value of the map, in the order that its list has
unfoldable pub serialize_pairs : Storage → Bytes
serialize_pairs [] = []
serialize_pairs ((key, value) ∷ entries) =
    copy (zeros 32) key ++ (copy (zeros 32) value ++ serialize_pairs entries)

unfoldable pub serialize_entries : Storage → Bytes
unfolding serialize_pairs
serialize_entries entries = be32 (length entries) ++ serialize_pairs entries

-- `GetMetaData`
unfoldable pub get_meta_data : Snapshot → Bytes
get_meta_data s = copy (zeros 32) s.commitment ++ be32 1

module _ (ipa : Ipa) where
  -- the keys that `serializeTrie` looks at for one address
  unfoldable pub sampled_keys : Bytes → List Bytes
  sampled_keys address =
      get_basic_data_key ipa address
      ∷ get_code_hash_key ipa address
      ∷ (tabulate 256 (λ slot. get_storage_key ipa address (zeros 31 ++ slot ∷ []))
          ++ tabulate 1024 (λ chunk. get_code_chunk_key ipa address chunk))

  -- the values other than zero among these keys
  unfoldable pub collect : Trie ipa → List Bytes → Storage → Option Storage
  collect t [] entries = some entries
  collect t (key ∷ keys) entries = do
    value ← Trie.get ipa t key
    collect t keys (if bytes_equal value (zeros 32) then entries else insert entries key value)

  -- `for addrByte := 0; addrByte < 256; addrByte++`, from `addr_byte` on
  unfoldable pub collect_addresses : ℕ → ℕ → Trie ipa → Storage → Option Storage
  unfolding sampled_keys collect
  collect_addresses zero addr_byte t entries = some entries
  collect_addresses (suc rounds) addr_byte t entries = do
    entries' ← collect t (sampled_keys (addr_byte ∷ zeros 19)) entries
    collect_addresses rounds (addr_byte + 1) t entries'

  unfoldable pub serialize_trie : Trie ipa → Option Bytes
  unfolding collect_addresses serialize_entries
  serialize_trie t = do entries ← collect_addresses 256 0 t []; some (serialize_entries entries)

  -- the loop of `deserializeTrie`, on the bytes from the offset on
  unfoldable pub restore_entries : ℕ → Trie ipa → Bytes → Option (Trie ipa)
  restore_entries zero t bytes = some t
  restore_entries (suc rounds) t bytes = do
    t' ← Trie.set ipa t (copy (zeros 32) (slice 0 32 bytes)) (copy (zeros 32) (slice 32 64 bytes))
    restore_entries rounds t' (drop 64 bytes)

  -- The state's trie afterwards, and the error.
  unfoldable pub deserialize_trie : Trie ipa → Bytes → Option (Trie ipa × Option Failure)
  unfolding restore_entries
  deserialize_trie t bytes =
      let num_entries = be_value 0 (slice 0 4 bytes) in
      let restored = restore_entries num_entries (Trie.empty ipa) (drop 4 bytes) in
      if ltb (length bytes) 4
      then some (t, some too_short)
      else (if not (length bytes == 4 + num_entries * 64)
          then some (t, some wrong_length)
          else (do t' ← restored; some (t', none)))

  unfoldable pub create_snapshot : Trie ipa → Option (Trie ipa × Snapshot)
  unfolding serialize_trie
  create_snapshot t = do
    bytes ← serialize_trie (Trie.commit ipa t).1
    some (
      (Trie.commit ipa t).1,
      record { commitment = compress ipa (Trie.commit ipa t).0; bytes = bytes },
    )

  -- `Commit` of the restored trie, against what is expected
  unfoldable pub check_restored : Bytes → Trie ipa × Option Failure → Trie ipa × Option Failure
  check_restored expected (t, some failure) = (t, some failure)
  check_restored expected (t, none) =
      let r = Trie.commit ipa t in
      if not (bytes_equal (compress ipa r.0) expected)
      then (r.1, some commitment_mismatch)
      else (r.1, none)

  -- `Restore` of a `vtSnapshot`
  unfoldable pub restore : Trie ipa → Snapshot → Option (Trie ipa × Option Failure)
  unfolding deserialize_trie check_restored get_meta_data
  restore t s =
      let metadata = get_meta_data s in
      if ltb (length metadata) 32
      then some (t, some metadata_too_short)
      else (do r ← deserialize_trie t s.bytes; some (check_restored (slice 0 32 metadata) r))

  -- `VerifyPart`, of a verifier for the commitment `expected`
  unfoldable pub verify_part : Bytes → ℕ → Bytes → Bytes → Option (Option Failure)
  unfolding deserialize_trie check_restored
  verify_part expected part_number proof part =
      if not (part_number == 0)
      then some (some invalid_part)
      else (if not (bytes_equal proof expected)
          then some (some proof_mismatch)
          else (do r ← deserialize_trie (Trie.empty ipa) part; some (check_restored expected r).1))
