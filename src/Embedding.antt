-- ===== src/Embedding.antt =====
-- memory/embedding.go: where the fields, code chunks and storage slots of an account stand in the
-- trie.
pub mod Layout
pub mod Keys
use verkle_trie.Prelude.{
  ℕ, zero, suc, ◌+◌, ◌-◌, ◌*◌, ◌/◌, ◌%◌, ◌^◌, ◌<◌, List, [], ◌∷◌, ◌++◌, Bytes, be_value, get_or,
  set, take, drop, length, copy, zeros, ltb, if◌then◌else◌, update,
}
use verkle_trie.Commit
use verkle_trie.Commit.{Ipa, Value, zero_value}

abbrev pub header_storage_offset : ℕ
header_storage_offset = 64

abbrev pub code_offset : ℕ
code_offset = 128

abbrev pub code_storage_delta : ℕ
code_storage_delta = code_offset - header_storage_offset

abbrev pub verkle_node_width : ℕ
verkle_node_width = 256

-- `1 << (248 - 8)`
abbrev pub main_storage_offset : ℕ
main_storage_offset = 2 ^ 240

abbrev pub u256_mod : ℕ
u256_mod = 2 ^ 256

-- the little-endian bytes of a `uint256.Int`: `Bytes32` and `slices.Reverse`
unfoldable pub le_bytes : ℕ → ℕ → Bytes
le_bytes zero n = []
le_bytes (suc k) n = n % 256 ∷ le_bytes k (n / 256)

-- A place in the tree of one account: `getTrieKey` takes the index of a group of 256 values, and
-- the position in the group.
pub record Place : Type 0 where
  pub tree_index : ℕ
  pub sub_index : ℕ

unfoldable pub basic_data_place : Place
basic_data_place = record { tree_index = 0; sub_index = 0 }

unfoldable pub code_hash_place : Place
code_hash_place = record { tree_index = 0; sub_index = 1 }

-- `uint256` arithmetic on a `uint64` chunk number
unfoldable pub code_chunk_place : ℕ → Place
code_chunk_place chunk_number =
    let chunk_offset = (code_offset + chunk_number % 2 ^ 64) % u256_mod in
    record {
      tree_index = chunk_offset / verkle_node_width;
      sub_index = chunk_offset % verkle_node_width % 256;
    }

unfoldable pub storage_place : Bytes → Place
storage_place key =
    let tree_index = be_value 0 key in
    if ltb tree_index code_storage_delta
    then (record {
      tree_index = 0;
      sub_index = (header_storage_offset + tree_index) % u256_mod % 256;
    })
    else (record {
      tree_index = (tree_index / 2 ^ 8 + main_storage_offset) % u256_mod;
      sub_index = get_or key (length key - 1) 0;
    })

module _ (ipa : Ipa) where
  -- the five values that are hashed
  unfoldable pub key_values : Bytes → ℕ → ℕ → Value ipa
  unfolding le_bytes
  key_values address tree_index =
      let expanded = zeros 12 ++ copy (zeros 20) address in
      let index = le_bytes 32 tree_index in
      update
        (update
          (update
            (update (update (λ _. zero_value ipa) 0 (Commit.new_value ipa (2 + 256 * 64))) 1
              (Commit.new_value_from_little_endian_bytes ipa (take 16 expanded)))
            2 (Commit.new_value_from_little_endian_bytes ipa (drop 16 expanded)))
          3 (Commit.new_value_from_little_endian_bytes ipa (take 16 index)))
        4 (Commit.new_value_from_little_endian_bytes ipa (drop 16 index))

  -- the stem: the first 31 bytes of the Pedersen hash
  unfoldable pub trie_stem : Bytes → ℕ → Bytes
  unfolding key_values
  trie_stem address tree_index =
      let hash = Commit.hash ipa (Commit.commit ipa (key_values address tree_index)) in
      copy (zeros 31) (take 31 hash)

  unfoldable pub get_trie_key : Bytes → Place → Bytes
  get_trie_key address p = trie_stem address p.tree_index ++ p.sub_index ∷ []

  unfoldable pub get_basic_data_key : Bytes → Bytes
  unfolding basic_data_place
  get_basic_data_key address = get_trie_key address basic_data_place

  unfoldable pub get_code_hash_key : Bytes → Bytes
  unfolding code_hash_place
  get_code_hash_key address = get_trie_key address code_hash_place

  unfoldable pub get_code_chunk_key : Bytes → ℕ → Bytes
  unfolding code_chunk_place
  get_code_chunk_key address chunk_number = get_trie_key address (code_chunk_place chunk_number)

  unfoldable pub get_storage_key : Bytes → Bytes → Bytes
  unfolding storage_place
  get_storage_key address key = get_trie_key address (storage_place key)
