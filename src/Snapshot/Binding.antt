-- ===== src/Snapshot/Binding.antt =====
-- state.go: what a `Restore` that succeeds says of the values, whoever made the snapshot's bytes.
use verkle_trie.Prelude.{
  ℕ, zero, suc, ◌*◌, ◌+◌, ◌==◌, ◌≡◌, ◌⊎◌, refl, ◌∙◌, sym, ap, true, Option, none, some, >>=-eq-some,
  List, Bytes, IsByte, bytes_equal, length, length-copy, drop, slice, copy, copy_full, zeros, ltb,
  Bool-cases, inl, inr, All, arith,
}
use mathlib.Core.Option.{some-injective}
use verkle_trie.Archive.{Snapshot}
use verkle_trie.Commit
use verkle_trie.Commit.{Ipa, Commitment, compress}
use verkle_trie.Commit.Encoding.{IsStandard, IsBytes32, All-take, All-drop, copy-All, zeros-IsByte}
use verkle_trie.Commit.Binding.{Break, and_then}
use verkle_trie.Trie
use verkle_trie.Trie.{Trie, empty, Op, put, commits, run}
use verkle_trie.Trie.Laws.{commit_lem}
use verkle_trie.Trie.History.{run-eq-latest}
use verkle_trie.Trie.Sized.{HasBytes32}
use verkle_trie.Trie.Binding.{HasBytes32-HasKey, commit-binding}
use verkle_trie.Snapshot.{Failure, deserialize_trie, restore_entries, check_restored, restore}
use verkle_trie.Snapshot.RoundTrip.{writes_of, announced, restore_entries-run}
use verkle_trie.Snapshot.Restores.{meta_data-commitment, meta_data-length}

-- `copy` into an array of 32 bytes
copy-IsBytes32 : (bs : Bytes) → All IsByte bs → IsBytes32 (copy (zeros 32) bs)
copy-IsBytes32 bs h = (length-copy (zeros 32) bs, copy-All IsByte (zeros 32) bs (zeros-IsByte 32) h)

writes_of-HasBytes32 : (n : ℕ) (bs : Bytes) → All IsByte bs → All HasBytes32 (writes_of n bs)
unfolding writes_of
writes_of-HasBytes32 zero bs h = tt
writes_of-HasBytes32 (suc n) bs h = (
  (
    copy-IsBytes32 (slice 0 32 bs) (All-take IsByte 32 bs h),
    copy-IsBytes32 (slice 32 64 bs) (All-take IsByte 32 (drop 32 bs) (All-drop IsByte 32 bs h)),
  ),
  writes_of-HasBytes32 n (drop 64 bs) (All-drop IsByte 64 bs h),
)

module _ {ipa : Ipa} where
  abbrev outcome : Trie ipa × Option Failure → Option Failure
  outcome r = r.1

  -- A trie that `deserializeTrie` returns without an error is that of the writes of the bytes.
  deserialize_trie-writes_of :
      (t w : Trie ipa) (bs : Bytes)
      → deserialize_trie ipa t bs ≡ some (w, none)
      → run ipa (empty ipa) (writes_of (announced bs) (drop 4 bs)) ≡ some w
  unfolding deserialize_trie
  deserialize_trie-writes_of t w bs e = elim (Bool-cases (ltb (length bs) 4)) [
    | inl short ↦ cc (ap outcome (some-injective _ _ (rw short at e)))
    | inr long ↦ elim (Bool-cases (length bs == 4 + announced bs * 64)) [
      | inr other ↦ cc (ap outcome (some-injective _ _ (rw (long, other) at e)))
      | inl same ↦
          let (w', back, end) =
            >>=-eq-some (restore_entries ipa (announced bs) (empty ipa) (drop 4 bs)) _
              (rw (long, same) at e) in
          sym (restore_entries-run (announced bs) (empty ipa) (drop 4 bs))
          ∙ back
          ∙ ap some (ap (λ (p : Trie ipa × Option Failure). p.0) (some-injective _ _ end))
    ]
  ]

  check_restored-none :
      (expected : Bytes) (p : Trie ipa × Option Failure) (r : Trie ipa)
      → check_restored ipa expected p ≡ (r, none)
      → (p.1 ≡ none)
        × (bytes_equal (compress ipa (Trie.commit ipa p.0).0) expected ≡ true)
        × ((Trie.commit ipa p.0).1 ≡ r)
  unfolding check_restored
  check_restored-none expected (w, some failure) r e = cc (ap outcome e)
  check_restored-none expected (w, none) r e =
      elim (Bool-cases (bytes_equal (compress ipa (Trie.commit ipa w).0) expected)) [
        | inr other ↦ cc (ap outcome (rw other at e))
        | inl same ↦ (refl, same, ap (λ (p : Trie ipa × Option Failure). p.0) (rw same at e))
      ]

  -- what is restored without an error
  restore-none :
      (u r : Trie ipa) (s : Snapshot)
      → restore ipa u s ≡ some (r, none)
      → (w : Trie ipa) × (deserialize_trie ipa u s.bytes ≡ some (w, none))
        × (bytes_equal (compress ipa (Trie.commit ipa w).0) (copy (zeros 32) s.commitment) ≡ true)
        × ((Trie.commit ipa w).1 ≡ r)
  unfolding restore
  restore-none u r s e =
      let ((w, failure), back, end) =
        >>=-eq-some (deserialize_trie ipa u s.bytes) _ (rw (meta_data-length s) at e) in
      let (fine, same, final) =
        check_restored-none (copy (zeros 32) s.commitment) (w, failure) r
          (rw (meta_data-commitment s) at (some-injective _ _ end)) in
      (w, back ∙ ap (λ f. some (w, f)) fine, same, final)

  module _ (standard : IsStandard ipa) where
    -- Where commitments and scalars are standard and `Compress` gives 32 bytes, the same only for
    -- commitments that `Equal` takes for the same: a snapshot of any bytes, with the compressed
    -- commitment of the trie of a history of writes of 32-byte keys and values and of commits, that
    -- `Restore` into any trie accepts without an error, leaves a trie in which `Get` of every key
    -- returns what it returns in the trie of the history, or there is a break of the commitment
    -- scheme.
    pub restore-binding :
        (ops : List Op) (t u r : Trie ipa) (s : Snapshot) (k : Bytes)
        → All HasBytes32 ops
        → All IsByte s.bytes
        → IsBytes32 k
        → ((c : Commitment ipa) → length (compress ipa c) ≡ 32)
        → ((c d : Commitment ipa)
            → bytes_equal (compress ipa c) (compress ipa d) ≡ true
            → Commit.equal ipa c d ≡ true)
        → run ipa (empty ipa) ops ≡ some t
        → s.commitment ≡ compress ipa (Trie.commit ipa t).0
        → restore ipa u s ≡ some (r, none)
        → Break ipa ⊎ (Trie.get ipa r k ≡ Trie.get ipa t k)
    restore-binding ops t u r s k h bytes sized size canonical e same_commitment restored =
        let (w, back, same, final) = restore-none u r s restored in
        let writes = writes_of (announced s.bytes) (drop 4 s.bytes) in
        let h' =
          writes_of-HasBytes32 (announced s.bytes) (drop 4 s.bytes)
            (All-drop IsByte 4 s.bytes bytes) in
        let e' = deserialize_trie-writes_of u w s.bytes back in
        let (t1, e1, _, reads) = run-eq-latest {ipa = ipa} ops (HasBytes32-HasKey ops h) in
        let (w1, e1', v, reads') = run-eq-latest {ipa = ipa} writes (HasBytes32-HasKey writes h') in
        let same_t : t ≡ t1 = some-injective _ _ (sym e ∙ e1) in
        let same_w : w ≡ w1 = some-injective _ _ (sym e' ∙ e1') in
        let (_, _, kept, _) = commit_lem w1 v in
        let c = compress ipa (Trie.commit ipa t).0 in
        let full : copy (zeros 32) s.commitment ≡ c =
          ap (copy (zeros 32)) same_commitment
          ∙ copy_full (zeros 32) c (omega (arith, size (Trie.commit ipa t).0)) in
        let match_ : bytes_equal (compress ipa (Trie.commit ipa w).0) c ≡ true =
          ap (bytes_equal (compress ipa (Trie.commit ipa w).0)) (sym full) ∙ same in
        and_then
          (commit-binding standard writes ops w t k h' h sized e' e
            (canonical (Trie.commit ipa w).0 (Trie.commit ipa t).0 match_))
          λ contents. inr (
            ap (λ (x : Trie ipa). Trie.get ipa x k)
              (sym final ∙ ap (λ (x : Trie ipa). (Trie.commit ipa x).1) same_w)
            ∙ kept k
            ∙ reads' k sized.0
            ∙ contents.0
            ∙ sym (reads k sized.0)
            ∙ ap (λ (x : Trie ipa). Trie.get ipa x k) (sym same_t))
