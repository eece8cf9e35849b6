-- ===== src/Snapshot/Restores.antt =====
-- state.go: `Restore` against the commitment of the snapshot.
use verkle_trie.Prelude.{
  ◌≡◌, refl, ◌∙◌, ap, false, Option, none, some, ◌++◌, Bytes, be32, bytes_equal, bytes_equal-eq,
  length, slice, copy, zeros, ltb, Bool-cases, inl, inr, arith, length-append, length-copy,
  take-append_le, take_all, le→ltb,
}
use verkle_trie.Archive.{Snapshot}
use verkle_trie.Commit.{Ipa, compress}
use verkle_trie.Trie
use verkle_trie.Trie.{Trie}
use verkle_trie.Trie.Laws.{IsValid, commit_lem}
use verkle_trie.Snapshot.{Failure, get_meta_data, check_restored, restore}
use verkle_trie.Snapshot.RoundTrip.{deserialize_trie-total}

pub meta_data-commitment :
    (s : Snapshot) → slice 0 32 (get_meta_data s) ≡ copy (zeros 32) s.commitment
unfolding get_meta_data
meta_data-commitment s =
    let len = length-copy (zeros 32) s.commitment in
    take-append_le 32 (copy (zeros 32) s.commitment) (be32 1) (omega arith)
    ∙ take_all 32 (copy (zeros 32) s.commitment) (omega arith)

pub meta_data-length : (s : Snapshot) → ltb (length (get_meta_data s)) 32 ≡ false
unfolding get_meta_data
meta_data-length s =
    let len = length-copy (zeros 32) s.commitment in
    let sum = length-append (copy (zeros 32) s.commitment) (be32 1) in
    le→ltb (length (copy (zeros 32) s.commitment ++ be32 1)) 32 (omega arith)

module _ {ipa : Ipa} where
  check_restored-guards :
      (expected : Bytes) (t : Trie ipa) (error : Option Failure)
      → IsValid t
      → let r = check_restored ipa expected (t, error) in
        IsValid r.0 × (r.1 ≡ none → compress ipa (Trie.commit ipa r.0).0 ≡ expected)
  unfolding check_restored
  check_restored-guards expected t (some failure) v = (v, λ e. cc)
  check_restored-guards expected t none v =
      let (_, valid, _, again) = commit_lem t v in
      elim (Bool-cases (bytes_equal (compress ipa (Trie.commit ipa t).0) expected)) [
        | inl same ↦ rw same (valid, λ e. ap (compress ipa) again ∙ bytes_equal-eq _ expected same)
        | inr other ↦ rw other (valid, λ e. cc)
      ]

  -- `Restore` of any snapshot, on a valid trie, does not panic and leaves a valid trie. It succeeds
  -- only if the commitment of the trie that it leaves is that of the snapshot.
  pub restore-guards :
      (t : Trie ipa) (s : Snapshot)
      → IsValid t
      → (t' : Trie ipa) × (error : Option Failure) × (restore ipa t s ≡ some (t', error))
        × IsValid t'
        × (error ≡ none → compress ipa (Trie.commit ipa t').0 ≡ copy (zeros 32) s.commitment)
  unfolding restore
  restore-guards t s v =
      let (u, error, e, w, _) = deserialize_trie-total t s.bytes v in
      let expected = copy (zeros 32) s.commitment in
      let (valid, guards) = check_restored-guards expected u error w in
      let r = check_restored ipa expected (u, error) in
      (r.0, r.1, rw (meta_data-length s, e, meta_data-commitment s) refl, valid, guards)
