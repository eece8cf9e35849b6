-- ===== src/Snapshot/Histories.antt =====
-- state.go: `Restore` of a snapshot of a state with sampled accounts only.
use verkle_trie.Prelude.{
  ◌^◌, ◌<◌, ◌≡◌, ◌≢◌, refl, ◌∙◌, sym, ap, true, none, some, List, [], Bytes, bytes_equal,
  bytes_equal_refl, length, zeros, copy, copy_full, map, Bool-cases, inl, inr, All, arith,
}
use mathlib.Core.Option.{some-injective}
use verkle_trie.Archive.{Snapshot}
use verkle_trie.Commit.{Ipa, Commitment, compress}
use verkle_trie.Node.{zero_bytes32}
use verkle_trie.Node.Shape.{IsKey}
use verkle_trie.Trie
use verkle_trie.Trie.{Trie, empty, Op, put, commits, run}
use verkle_trie.Trie.Laws.{IsValid, commit_lem}
use verkle_trie.Trie.History.{latest, HasKey, run-eq-latest}
use verkle_trie.Trie.Contents.{written, commit-contents}
use verkle_trie.Witness.{Storage}
use verkle_trie.Witness.Extracts.{or_else, is_some}
use verkle_trie.Snapshot.{
  create_snapshot, serialize_trie, collect_addresses, serialize_entries, deserialize_trie,
  check_restored, restore,
}
use verkle_trie.Snapshot.RoundTrip.{put_entry, entries-HasKey, deserialize_trie-run}
use verkle_trie.Snapshot.Restores.{meta_data-commitment, meta_data-length}
use verkle_trie.Snapshot.Samples.{is_sampled, Samples, collect_all-Samples}
use verkle_trie.Snapshot.Writes.{
  HasEntry, HasEntry-HasKey, final, latest-final, length-final, final-unwritten, written-entries,
  latest-entries, nonzero_cases, is_some-nonzero,
}

-- What a history writes is sampled and is not left at zero.
pub record IsSampled (ipa : Ipa) (ops : List Op) : Type 0 where
  pub sampled : (k : Bytes) → IsKey k → written ops k ≡ true → is_sampled ipa 256 0 k ≡ true
  pub not_zero :
      (k : Bytes)
      → IsKey k
      → written ops k ≡ true
      → latest (some zero_bytes32) ops k ≢ some (zeros 32)

module _ {ipa : Ipa} where
  check_restored-same :
      (t : Trie ipa) (expected : Bytes)
      → compress ipa (Trie.commit ipa t).0 ≡ expected
      → check_restored ipa expected (t, none) ≡ ((Trie.commit ipa t).1, none)
  unfolding check_restored
  check_restored-same t expected e =
      let same : bytes_equal (compress ipa (Trie.commit ipa t).0) expected ≡ true =
        ap (λ c. bytes_equal c expected) e ∙ bytes_equal_refl expected in
      rw same refl

  pub restore-deserialized :
      (u t : Trie ipa) (s : Snapshot)
      → deserialize_trie ipa u s.bytes ≡ some (t, none)
      → compress ipa (Trie.commit ipa t).0 ≡ copy (zeros 32) s.commitment
      → restore ipa u s ≡ some ((Trie.commit ipa t).1, none)
  unfolding restore
  restore-deserialized u t s e c =
      rw
        (
          meta_data-length s,
          e,
          meta_data-commitment s,
          check_restored-same t (copy (zeros 32) s.commitment) c,
        )
        refl

  -- the commitments of two histories, at the tries that they run to
  commit-runs :
      (ops ops' : List Op) (t u : Trie ipa)
      → All HasKey ops
      → All HasKey ops'
      → run ipa (empty ipa) ops ≡ some t
      → run ipa (empty ipa) ops' ≡ some u
      → ((k : Bytes) → IsKey k → written ops k ≡ written ops' k)
      → ((k : Bytes)
          → IsKey k
          → latest (some zero_bytes32) ops k ≡ latest (some zero_bytes32) ops' k)
      → (Trie.commit ipa t).0 ≡ (Trie.commit ipa u).0
  commit-runs ops ops' t u h h' e e' same_keys same_values =
      let (t1, u1, e1, e1', same) =
        commit-contents {ipa = ipa} ops ops' h h' same_keys same_values in
      let digest = λ (x : Trie ipa). (Trie.commit ipa x).0 in
      ap digest (some-injective _ _ (sym e ∙ e1))
      ∙ same
      ∙ ap digest (some-injective _ _ (sym e1' ∙ e'))

  module _ (ops : List Op) (h : IsSampled ipa ops) (r : Storage)
      (s : Samples (final zero_bytes32 ops) (is_sampled ipa 256 0) 328192 r) where
    samples-written : (k : Bytes) → IsKey k → written ops k ≡ written (map put_entry r) k
    unfolding bytes_equal
    samples-written k len =
        let f = final zero_bytes32 ops in
        sym (
          written-entries r k ∙ ap is_some (s.finds k) ∙ (elim (Bool-cases (written ops k)) [
            | inl here ↦
                let value : f k ≢ zeros 32 =
                  λ e. h.not_zero k len here (latest-final ops zero_bytes32 k ∙ ap some e) in
                rw (h.sampled k len here) (is_some-nonzero (f k) value) ∙ sym here
            | inr nowhere ↦
                let nothing = final-unwritten ops zero_bytes32 k nowhere in
                elim (Bool-cases (is_sampled ipa 256 0 k)) [
                  | inl seen ↦ rw (seen, nothing, nowhere) refl
                  | inr unseen ↦ rw (unseen, nowhere) refl
                ]
          ]))

    samples-latest :
        (k : Bytes)
        → IsKey k
        → latest (some zero_bytes32) ops k ≡ latest (some zero_bytes32) (map put_entry r) k
    samples-latest k len =
        let f = final zero_bytes32 ops in
        latest-final ops zero_bytes32 k
        ∙ sym (
            latest-entries r (some zero_bytes32) k s.map
            ∙ ap (λ x. or_else x (some zero_bytes32)) (s.finds k)
            ∙ (elim (Bool-cases (is_sampled ipa 256 0 k)) [
              | inl seen ↦ rw seen (nonzero_cases (f k))
              | inr unseen ↦ elim (Bool-cases (written ops k)) [
                | inl here ↦ cc (h.sampled k len here, unseen)
                | inr nowhere ↦
                    rw unseen (ap some (sym (final-unwritten ops zero_bytes32 k nowhere)))
              ]
            ]))

  pub create_snapshot-eq :
      (t : Trie ipa) (r : Storage)
      → collect_addresses ipa 256 0 (Trie.commit ipa t).1 [] ≡ some r
      → create_snapshot ipa t
        ≡ some (
          (Trie.commit ipa t).1,
          record { commitment = compress ipa (Trie.commit ipa t).0; bytes = serialize_entries r },
        )
  unfolding create_snapshot serialize_trie
  create_snapshot-eq t r e = rw e refl

  -- After any history of writes of 32-byte values and of commits that writes sampled keys only and
  -- leaves none of them at zero, `CreateSnapshot` does not panic, and `Restore` of its snapshot into
  -- any trie succeeds, with a valid trie that has the commitment and all values of the first, where
  -- compressed commitments have 32 bytes.
  pub restore-create_snapshot :
      (ops : List Op) (u : Trie ipa)
      → All HasEntry ops
      → IsSampled ipa ops
      → ((c : Commitment ipa) → length (compress ipa c) ≡ 32)
      → (t t' r : Trie ipa) × (s : Snapshot) × (run ipa (empty ipa) ops ≡ some t)
        × (create_snapshot ipa t ≡ some (t', s))
        × (restore ipa u s ≡ some (r, none))
        × IsValid r
        × ((Trie.commit ipa r).0 ≡ (Trie.commit ipa t).0)
        × ((k : Bytes) → IsKey k → Trie.get ipa r k ≡ Trie.get ipa t k)
  restore-create_snapshot ops u h sampled size =
      let keys = HasEntry-HasKey ops h in
      let (t, e, v, reads) = run-eq-latest {ipa = ipa} ops keys in
      let (_, _, same_reads, _) = commit_lem t v in
      let (r, collected, s) =
        collect_all-Samples (Trie.commit ipa t).1 (final zero_bytes32 ops)
          (λ k len. same_reads k ∙ reads k len ∙ latest-final ops zero_bytes32 k)
          (λ k len. length-final ops zero_bytes32 k h refl) in
      let writes = map put_entry r in
      let (w, e', v', reads') = run-eq-latest {ipa = ipa} writes (entries-HasKey r s.sized) in
      let (_, valid, same_reads', again) = commit_lem w v' in
      let digests : (Trie.commit ipa w).0 ≡ (Trie.commit ipa t).0 = sym (
        commit-runs ops writes t w keys (entries-HasKey r s.sized) e e'
          (samples-written ops sampled r s) (samples-latest ops sampled r s)) in
      let c = compress ipa (Trie.commit ipa t).0 in
      let full : copy (zeros 32) c ≡ c =
        copy_full (zeros 32) c (omega (arith, size (Trie.commit ipa t).0)) in
      let short : length r < 2 ^ 32 = let b = s.short in omega arith in
      (
        t,
        (Trie.commit ipa t).1,
        (Trie.commit ipa w).1,
        record { commitment = c; bytes = serialize_entries r },
        e,
        create_snapshot-eq t r collected,
        restore-deserialized u w (record { commitment = c; bytes = serialize_entries r })
            (deserialize_trie-run u w r s.sized short e') (ap (compress ipa) digests ∙ sym full),
        valid,
        again ∙ digests,
        λ k len.
            same_reads' k
            ∙ reads' k len
            ∙ sym (samples-latest ops sampled r s k len)
            ∙ sym (reads k len),
      )
