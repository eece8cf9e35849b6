-- ===== src/Snapshot/Lost.antt =====
-- state.go: `Restore` of a snapshot of a state that has a written key which `serializeTrie` leaves out.
use verkle_trie.Prelude.{
  ◌^◌, ◌<◌, ◌≡◌, ◌⊎◌, refl, ◌∙◌, sym, ap, true, false, Option, none, some, List, [], ◌∷◌, Bytes,
  bytes_equal, bytes_equal-eq, bytes_equal_refl, length, zeros, copy, copy_full, map, Bool-cases,
  inl, inr, All, arith, if◌then◌else◌, subst,
}
use mathlib.Core.Option.{some-injective}
use verkle_trie.Archive.{Snapshot}
use verkle_trie.Commit
use verkle_trie.Commit.{Ipa, Commitment, compress}
use verkle_trie.Commit.Encoding.{IsStandard, IsBytes32, zeros-IsByte}
use verkle_trie.Commit.Binding.{Break, and_then}
use verkle_trie.Node.{zero_bytes32}
use verkle_trie.Trie
use verkle_trie.Trie.{Trie, empty, Op, put, commits, run}
use verkle_trie.Trie.Laws.{commit_lem}
use verkle_trie.Trie.History.{latest, run-eq-latest}
use verkle_trie.Trie.Contents.{written}
use verkle_trie.Trie.Sized.{HasBytes32}
use verkle_trie.Trie.Binding.{HasBytes32-HasKey, commit-binding}
use verkle_trie.Witness.{Storage, lookup}
use verkle_trie.Witness.Extracts.{is_some}
use verkle_trie.Witness.Ranges.{IsMap}
use verkle_trie.Snapshot.{
  Failure, commitment_mismatch, create_snapshot, serialize_entries, deserialize_trie,
  check_restored, restore,
}
use verkle_trie.Snapshot.RoundTrip.{put_entry, entries-HasKey, deserialize_trie-run}
use verkle_trie.Snapshot.Restores.{meta_data-commitment, meta_data-length}
use verkle_trie.Snapshot.Samples.{is_sampled, nonzero, Samples, collect_all-Samples}
use verkle_trie.Snapshot.Writes.{
  final-IsBytes32, final, latest-final, length-final, final-unwritten, written-entries, HasEntry,
}
use verkle_trie.Snapshot.Histories.{restore-deserialized, create_snapshot-eq}

-- What a map finds for a key is all that it has.
All-lookup :
    (P : Bytes × Bytes → Type 0) (r : Storage)
    → IsMap r
    → ((k v : Bytes) → lookup r k ≡ some v → P (k, v))
    → All P r
unfolding lookup IsMap
All-lookup P [] m h = tt
All-lookup P ((key, value) ∷ r) m h = (
  h key value (rw (bytes_equal_refl key) refl),
  All-lookup P r m.1 λ k v e. elim (Bool-cases (bytes_equal key k)) [
    | inr other ↦ h k v (rw other e)
    | inl same ↦ cc (ap (lookup r) (bytes_equal-eq key k same), m.0)
  ],
)

-- A written key is one of the history's.
written-IsBytes32 :
    (ops : List Op) (k : Bytes) → All HasBytes32 ops → written ops k ≡ true → IsBytes32 k
unfolding written
written-IsBytes32 [] k h w = cc
written-IsBytes32 (put key value ∷ ops) k h w = elim (Bool-cases (bytes_equal k key)) [
  | inl same ↦ subst IsBytes32 (sym (bytes_equal-eq k key same)) h.0.0
  | inr other ↦ written-IsBytes32 ops k h.1 (rw other at w)
]
written-IsBytes32 (commits ∷ ops) k h w = written-IsBytes32 ops k h.1 w

entries-HasBytes32 :
    (r : Storage)
    → All (λ (e : Bytes × Bytes). IsBytes32 e.0 × IsBytes32 e.1) r
    → All HasBytes32 (map put_entry r)
entries-HasBytes32 [] h = tt
entries-HasBytes32 ((key, value) ∷ r) h = (h.0, entries-HasBytes32 r h.1)

-- the sampled entries of a history of bytes are bytes
module _ (ipa : Ipa) (ops : List Op) (h : All HasBytes32 ops) (r : Storage)
    (s : Samples (final zero_bytes32 ops) (is_sampled ipa 256 0) 328192 r) where
  found-IsBytes32 : (k v : Bytes) → lookup r k ≡ some v → IsBytes32 k × IsBytes32 v
  found-IsBytes32 k v e =
      let f = final zero_bytes32 ops in
      let there : (if is_sampled ipa 256 0 k then nonzero (f k) else none) ≡ some v =
        sym (s.finds k) ∙ e in
      elim (Bool-cases (is_sampled ipa 256 0 k)) [
        | inr unseen ↦ cc (rw unseen at there)
        | inl seen ↦ elim (Bool-cases (bytes_equal (f k) (zeros 32))) [
          | inl nothing ↦ cc (rw (seen, nothing) at there)
          | inr value ↦
              let same : f k ≡ v = some-injective _ _ (rw (seen, value) at there) in
              elim (Bool-cases (written ops k)) [
                | inl here ↦ (
                  written-IsBytes32 ops k h here,
                  subst IsBytes32 same
                      (final-IsBytes32 ops zero_bytes32 k h (refl, zeros-IsByte 32)),
                )
                | inr nowhere ↦
                    cc (final-unwritten ops zero_bytes32 k nowhere, bytes_equal_refl (zeros 32))
              ]
        ]
      ]

  pub samples-HasBytes32 : All HasBytes32 (map put_entry r)
  samples-HasBytes32 = entries-HasBytes32 r (All-lookup _ r s.map found-IsBytes32)

  -- A key that is not sampled, or that is zero, is not among the entries.
  left_out :
      (k : Bytes)
      → (is_sampled ipa 256 0 k ≡ false) ⊎ (final zero_bytes32 ops k ≡ zeros 32)
      → written (map put_entry r) k ≡ false
  left_out k (inl unseen) = written-entries r k ∙ ap is_some (s.finds k) ∙ (rw unseen refl)
  left_out k (inr nothing) =
      written-entries r k ∙ ap is_some (s.finds k) ∙ (elim (Bool-cases (is_sampled ipa 256 0 k)) [
        | inr unseen ↦ rw unseen refl
        | inl seen ↦ rw (seen, nothing, bytes_equal_refl (zeros 32)) refl
      ])

pub HasBytes32-HasEntry : (ops : List Op) → All HasBytes32 ops → All HasEntry ops
HasBytes32-HasEntry [] h = tt
HasBytes32-HasEntry (put key value ∷ ops) h = ((h.0.0.0, h.0.1.0), HasBytes32-HasEntry ops h.1)
HasBytes32-HasEntry (commits ∷ ops) h = (tt, HasBytes32-HasEntry ops h.1)

zero_or_unseen :
    {seen : Type 0} (ops : List Op) (k : Bytes)
    → seen ⊎ (latest (some zero_bytes32) ops k ≡ some (zeros 32))
    → seen ⊎ (final zero_bytes32 ops k ≡ zeros 32)
zero_or_unseen ops k (inl unseen) = inl unseen
zero_or_unseen ops k (inr nothing) =
    inr (some-injective _ _ (sym (latest-final ops zero_bytes32 k) ∙ nothing))

module _ {ipa : Ipa} (standard : IsStandard ipa) where
  -- the outcome of the comparison that ends `Restore`
  restore-compared :
      (u w : Trie ipa) (s : Snapshot)
      → deserialize_trie ipa u s.bytes ≡ some (w, none)
      → bytes_equal (compress ipa (Trie.commit ipa w).0) (copy (zeros 32) s.commitment) ≡ false
      → restore ipa u s ≡ some ((Trie.commit ipa w).1, some commitment_mismatch)
  unfolding restore check_restored
  restore-compared u w s e other = rw (meta_data-length s, e, meta_data-commitment s, other) refl

  -- Where commitments and scalars are standard and `Compress` gives 32 bytes, the same only for
  -- commitments that `Equal` takes for the same: after any history of writes of 32-byte keys and
  -- values and of commits that has written a key which `serializeTrie` does not sample, or has left
  -- a written key at zero, `CreateSnapshot` does not panic, and `Restore` of its snapshot into any
  -- trie ends in the error for a commitment mismatch, or there is a break of the commitment scheme.
  pub restore-mismatch :
      (ops : List Op) (u : Trie ipa) (k : Bytes)
      → All HasBytes32 ops
      → IsBytes32 k
      → written ops k ≡ true
      → (is_sampled ipa 256 0 k ≡ false) ⊎ (latest (some zero_bytes32) ops k ≡ some (zeros 32))
      → ((c : Commitment ipa) → length (compress ipa c) ≡ 32)
      → ((c d : Commitment ipa)
          → bytes_equal (compress ipa c) (compress ipa d) ≡ true
          → Commit.equal ipa c d ≡ true)
      → (t t' r : Trie ipa) × (s : Snapshot) × (error : Option Failure) × (run ipa (empty ipa) ops
          ≡ some t)
        × (create_snapshot ipa t ≡ some (t', s))
        × (restore ipa u s ≡ some (r, error))
        × (Break ipa ⊎ (error ≡ some commitment_mismatch))
  restore-mismatch ops u k h sized here lost size canonical =
      let keys = HasBytes32-HasKey ops h in
      let (t, e, v, reads) = run-eq-latest {ipa = ipa} ops keys in
      let (_, _, same_reads, _) = commit_lem t v in
      let (r, collected, s) =
        collect_all-Samples (Trie.commit ipa t).1 (final zero_bytes32 ops)
          (λ k' len. same_reads k' ∙ reads k' len ∙ latest-final ops zero_bytes32 k')
          (λ k' len. length-final ops zero_bytes32 k' (HasBytes32-HasEntry ops h) refl) in
      let writes = map put_entry r in
      let bytes = samples-HasBytes32 ipa ops h r s in
      let (w, e', _, _) = run-eq-latest {ipa = ipa} writes (entries-HasKey r s.sized) in
      let c = compress ipa (Trie.commit ipa t).0 in
      let full : copy (zeros 32) c ≡ c =
        copy_full (zeros 32) c (omega (arith, size (Trie.commit ipa t).0)) in
      let short : length r < 2 ^ 32 = let b = s.short in omega arith in
      let snapshot : Snapshot = record { commitment = c; bytes = serialize_entries r } in
      let back = deserialize_trie-run u w r s.sized short e' in
      let missing : written writes k ≡ false =
        left_out ipa ops h r s k (zero_or_unseen ops k lost) in
      let d = compress ipa (Trie.commit ipa w).0 in
      elim (Bool-cases (bytes_equal d c)) [
        | inr other ↦ (
          t,
          (Trie.commit ipa t).1,
          (Trie.commit ipa w).1,
          snapshot,
          some commitment_mismatch,
          e,
          create_snapshot-eq t r collected,
          restore-compared u w snapshot back (ap (bytes_equal d) full ∙ other),
          inr refl,
        )
        | inl same ↦ (
          t,
          (Trie.commit ipa t).1,
          (Trie.commit ipa w).1,
          snapshot,
          none,
          e,
          create_snapshot-eq t r collected,
          restore-deserialized u w snapshot back (bytes_equal-eq d c same ∙ sym full),
          and_then
              (commit-binding standard writes ops w t k bytes h sized e' e
                (canonical (Trie.commit ipa w).0 (Trie.commit ipa t).0 same))
              λ contents. absurd (cc (contents.1, missing, here)),
        )
      ]
