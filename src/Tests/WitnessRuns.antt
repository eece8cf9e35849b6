-- ===== src/Tests/WitnessRuns.antt =====
-- Runs of the proofs of state.go.
use verkle_trie.Prelude.{
  ℕ, ◌≡◌, ◌↔◌, ◌==◌, refl, true, false, some, [], ◌∷◌, Bytes, zeros, if◌then◌else◌, bytes_equal,
  bytes_le,
}
use verkle_trie.Witness.{
  Amounts, Proof, extract, get_state, get_balance, get_nonce, get_code_hash, all_states_zero,
  tri_true, tri_false,
}
use verkle_trie.Witness
use verkle_trie.Witness.Extracts.{all_in, contains, extract-get_state, all_states_zero-extract}
use verkle_trie.Witness.Ranges.{IsMap, is_between, all_states_zero_iff}
use verkle_trie.Tests.Toy.{digits_be}

abbrev amounts : Amounts
amounts = record {
  Amount = ℕ;
  new_amount = 0;
  equal = λ a b. a == b;
  bytes32 = λ n. digits_be 32 n [];
}

abbrev key1 : Bytes
key1 = 1 ∷ zeros 31

abbrev key2 : Bytes
key2 = 2 ∷ zeros 31

abbrev proof : Proof amounts
proof = record {
  root_hash = 9 ∷ zeros 31;
  address = 4 ∷ zeros 19;
  balance = 100;
  nonce = 1 ∷ zeros 7;
  code_hash = zeros 32;
  storage = (key1, zeros 32) ∷ (key2, key1) ∷ [];
  exists_ = true;
}

not_zero : all_states_zero amounts proof proof.root_hash proof.address key1 key2 ≡ tri_false
unfolding all_states_zero bytes_equal bytes_le
not_zero = refl

extract-get_state_example :
    (q : Proof amounts) × (extract amounts proof proof.root_hash proof.address (key2 ∷ [])
      ≡ (some q, all_in proof.storage (key2 ∷ [])))
    × ((key : Bytes)
        → get_state amounts q proof.root_hash proof.address key ≡ (
            if contains (key2 ∷ []) key
            then get_state amounts proof proof.root_hash proof.address key
            else (zeros 32, false)))
    × (get_balance amounts q proof.root_hash proof.address
        ≡ get_balance amounts proof proof.root_hash proof.address)
    × (get_nonce amounts q proof.root_hash proof.address
        ≡ get_nonce amounts proof proof.root_hash proof.address)
    × (get_code_hash amounts q proof.root_hash proof.address
        ≡ get_code_hash amounts proof proof.root_hash proof.address)
extract-get_state_example = extract-get_state proof (key2 ∷ [])

all_states_zero-extract_example :
    (q : Proof amounts) × (extract amounts proof proof.root_hash proof.address [] ≡ (some q, true))
    × (all_states_zero amounts q proof.root_hash proof.address key1 key2 ≡ tri_true)
all_states_zero-extract_example = all_states_zero-extract proof key1 key2

proof-IsMap : IsMap proof.storage
unfolding IsMap Witness.lookup bytes_equal
proof-IsMap = (refl, (refl, tt))

all_states_zero_iff_example :
    (all_states_zero amounts proof proof.root_hash proof.address key1 key2 ≡ tri_true) ↔ (
      (k v : Bytes)
      → get_state amounts proof proof.root_hash proof.address k ≡ (v, true)
      → is_between key1 key2 k ≡ true
      → v ≡ zeros 32)
all_states_zero_iff_example = all_states_zero_iff proof key1 key2 proof-IsMap
