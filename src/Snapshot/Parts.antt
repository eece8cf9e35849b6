-- ===== src/Snapshot/Parts.antt =====
-- state.go: the parts of a `vtSnapshot`, and its verifier.
use verkle_trie.Prelude.{
  ℕ, ◌+◌, ◌≡◌, refl, ◌∙◌, sym, ap, Bool, false, not, ◌==◌, Option, none, some, ◌>>=◌, Bytes,
  bytes_equal, be_value, ◌*◌, bytes_equal_refl, length, slice, copy, copy_full, zeros, ltb,
  Bool-cases, Option-cases, inl, inr, if◌then◌else◌, arith,
}
use verkle_trie.Archive.{Snapshot}
use verkle_trie.Commit.{Ipa}
use verkle_trie.Trie
use verkle_trie.Trie.{Trie}
use verkle_trie.Snapshot.{
  Failure, metadata_too_short, too_short, wrong_length, invalid_part, root_proof_mismatch,
  get_meta_data, deserialize_trie, check_restored, restore, verify_part,
}
use verkle_trie.Snapshot.Restores.{meta_data-commitment, meta_data-length}

-- a Go result: a value, or an error
pub data Result (A : Type 0) : Type 0 where
  ok : A → Result A
  err : Failure → Result A

-- `vtProof`
pub record Proof : Type 0 where
  pub commitment : Bytes

-- `vtProof.Equal`; a proof of another type is none
unfoldable pub equal : Proof → Option Proof → Bool
equal p none = false
equal p (some other) = bytes_equal p.commitment other.commitment

unfoldable pub get_root_proof : Snapshot → Proof
get_root_proof s = record { commitment = s.commitment }

abbrev pub get_num_parts : Snapshot → ℕ
get_num_parts s = 1

-- the guard of all accessors of a part
unfoldable pub at_part : {A : Type 0} → ℕ → A → Result A
at_part part_number a = if not (part_number == 0) then err invalid_part else ok a

unfoldable pub get_proof : Snapshot → ℕ → Result Proof
unfolding at_part
get_proof s part_number = at_part part_number (record { commitment = s.commitment })

-- the bytes of the part
unfoldable pub get_part : Snapshot → ℕ → Result Bytes
unfolding at_part
get_part s part_number = at_part part_number s.bytes

unfoldable pub get_proof_data : Snapshot → ℕ → Result Bytes
unfolding at_part
get_proof_data s part_number = at_part part_number s.commitment

unfoldable pub get_part_data : Snapshot → ℕ → Result Bytes
unfolding at_part
get_part_data s part_number = at_part part_number s.bytes

-- The verifier is the commitment that it expects.
unfoldable pub get_snapshot_verifier : Bytes → Result Bytes
get_snapshot_verifier metadata =
    if ltb (length metadata) 32
    then err metadata_too_short
    else ok (copy (zeros 32) (slice 0 32 metadata))

abbrev check_root : Bytes → Result Bytes → Result Proof
check_root expected (err failure) = err failure
check_root expected (ok proof_bytes) =
    if not (bytes_equal proof_bytes expected)
    then err root_proof_mismatch
    else ok (record { commitment = proof_bytes })

-- `VerifyRootProof`, of a verifier for the commitment `expected`
unfoldable pub verify_root_proof : Bytes → Snapshot → Result Proof
unfolding get_proof_data
verify_root_proof expected s = check_root expected (get_proof_data s 0)

-- The verifier of a snapshot expects its commitment.
verifier-eq :
    (s : Snapshot)
    → length s.commitment ≡ 32
    → get_snapshot_verifier (get_meta_data s) ≡ ok s.commitment
unfolding get_snapshot_verifier
verifier-eq s len =
    let same : copy (zeros 32) s.commitment ≡ s.commitment =
      copy_full (zeros 32) s.commitment (omega arith) in
    rw (meta_data-length s, meta_data-commitment s, same, same) refl

module _ {ipa : Ipa} where
  -- the error of a call that changes the trie too
  abbrev pub error_of : Option (Trie ipa × Option Failure) → Option (Option Failure)
  error_of r = r >>= λ x. some x.1

  check_restored-error :
      (expected : Bytes) (t u : Trie ipa) (failure : Failure)
      → (check_restored ipa expected (t, some failure)).1
        ≡ (check_restored ipa expected (u, some failure)).1
  unfolding check_restored
  check_restored-error expected t u failure = refl

  -- What `deserializeTrie` starts from makes no difference to the checks after it.
  check-deserialize_trie :
      (expected bytes : Bytes) (t u : Trie ipa)
      → (deserialize_trie ipa t bytes >>= λ r. some (check_restored ipa expected r).1)
        ≡ (deserialize_trie ipa u bytes >>= λ r. some (check_restored ipa expected r).1)
  unfolding deserialize_trie
  check-deserialize_trie expected bytes t u = elim (Bool-cases (ltb (length bytes) 4)) [
    | inl short ↦ rw short (ap some (check_restored-error expected t u too_short))
    | inr long ↦ elim (Bool-cases (length bytes == 4 + be_value 0 (slice 0 4 bytes) * 64)) [
      | inl same ↦ rw (long, same) refl
      | inr other ↦ rw (long, other) (ap some (check_restored-error expected t u wrong_length))
    ]
  ]

  restore-error :
      (t : Trie ipa) (s : Snapshot)
      → error_of (restore ipa t s) ≡ (
          deserialize_trie ipa t s.bytes >>= λ r.
          some (check_restored ipa (copy (zeros 32) s.commitment) r).1)
  unfolding restore
  restore-error t s = elim (Option-cases (deserialize_trie ipa t s.bytes)) [
    | inl e ↦ rw (meta_data-length s, e) refl
    | inr (r, e) ↦ rw (meta_data-length s, e, meta_data-commitment s) refl
  ]

  -- The verifier that `GetSnapshotVerifier` makes from the metadata of a snapshot with a 32-byte
  -- commitment accepts its root proof, and `VerifyPart` of its only part returns the error that
  -- `Restore` returns, and none where `Restore` succeeds.
  pub verify_part-restore :
      (t : Trie ipa) (s : Snapshot)
      → length s.commitment ≡ 32
      → (get_snapshot_verifier (get_meta_data s) ≡ ok s.commitment)
        × (verify_root_proof s.commitment s ≡ ok (get_root_proof s))
        × (verify_part ipa s.commitment 0 s.commitment s.bytes ≡ error_of (restore ipa t s))
  unfolding verify_root_proof get_root_proof verify_part
  verify_part-restore t s len =
      let self = bytes_equal_refl s.commitment in
      let same : copy (zeros 32) s.commitment ≡ s.commitment =
        copy_full (zeros 32) s.commitment (omega arith) in
      (
        verifier-eq s len,
        rw self refl,
        (rw self (check-deserialize_trie s.commitment s.bytes (Trie.empty ipa) t))
            ∙ ap
                (λ (c : Bytes).
                  deserialize_trie ipa t s.bytes >>= λ r. some (check_restored ipa c r).1)
                (sym same)
            ∙ sym (restore-error t s),
      )
