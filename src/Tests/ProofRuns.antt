-- ===== src/Tests/ProofRuns.antt =====
-- A run of `CreateWitnessProof` of state.go on a new state.
use verkle_trie.Prelude.{◌≡◌, true, false, some, [], ◌∷◌, Bytes, slice, zeros, if◌then◌else◌}
use verkle_trie.Embedding.{get_storage_key}
use verkle_trie.Trie.{Trie}
use verkle_trie.State.View.{Views}
use verkle_trie.State.Accounts.{basic, empty-Views}
use verkle_trie.State.Proofs.{
  amounts, has_account, get_hash, create_witness_proof, create_witness_proof_lem,
}
use verkle_trie.Witness
use verkle_trie.Witness.{Proof, get_state}
use verkle_trie.Witness.Extracts.{contains}
use verkle_trie.Tests.Toy.{toy}
use verkle_trie.Tests.StateRuns.{env, account, new_trie}

abbrev slot : Bytes
slot = zeros 32

abbrev new_view : Bytes → Bytes
new_view k = zeros 32

create_witness_proof_lem_example :
    (t : Trie toy) × (p : Proof (amounts env)) × (create_witness_proof env new_trie account
        (slot ∷ [])
      ≡ some (t, p))
    × Views env t new_view
    × ((k : Bytes)
        → get_state (amounts env) p (get_hash env new_trie).0 account k ≡ (
            if contains (slot ∷ []) k
            then (new_view (get_storage_key toy account k), true)
            else (zeros 32, false)))
    × (Witness.get_nonce (amounts env) p (get_hash env new_trie).0 account ≡ (
        if has_account env new_view account
        then (slice 8 16 (basic env new_view account), true)
        else (zeros 8, false)))
    × (Witness.get_balance (amounts env) p (get_hash env new_trie).0 account ≡ (
        if has_account env new_view account
        then (env.new_from_bytes (slice 16 32 (basic env new_view account)), true)
        else (env.new_amount, false)))
create_witness_proof_lem_example =
    create_witness_proof_lem env new_trie new_view account (slot ∷ []) (empty-Views env)
