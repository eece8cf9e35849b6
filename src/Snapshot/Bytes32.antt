-- ===== src/Snapshot/Bytes32.antt =====
-- state.go: `CreateSnapshot` of a trie that a history of keys and values has made gives bytes.
use verkle_trie.Prelude.{
  ◌≡◌, refl, ◌∙◌, sym, ap, some, [], ◌∷◌, IsByte, All, All-append, subst, length, copy, zeros, map,
  be32,
}
use mathlib.Core.Option.{some-injective}
use verkle_trie.Archive.{Snapshot}
use verkle_trie.Commit.{Ipa}
use verkle_trie.Commit.Encoding.{copy-All, zeros-IsByte}
use verkle_trie.Node.{zero_bytes32}
use verkle_trie.State.Bytes32.{be32-bytes}
use verkle_trie.Trie
use verkle_trie.Trie.{Trie, run, empty}
use verkle_trie.Trie.History.{run-eq-latest}
use verkle_trie.Trie.Binding.{HasBytes32-HasKey}
use verkle_trie.Trie.Sized.{HasBytes32}
use verkle_trie.Trie.Reached.{IsReached, commit-IsReached}
use verkle_trie.Witness.{Storage}
use verkle_trie.Snapshot.{create_snapshot, serialize_pairs, serialize_entries}
use verkle_trie.Snapshot.RoundTrip.{put_entry}
use verkle_trie.Snapshot.Samples.{collect_all-Samples}
use verkle_trie.Snapshot.Writes.{final, latest-final, length-final}
use verkle_trie.Snapshot.Histories.{create_snapshot-eq}
use verkle_trie.Snapshot.Lost.{samples-HasBytes32, HasBytes32-HasEntry}

serialize_pairs-bytes :
    (r : Storage) → All HasBytes32 (map put_entry r) → All IsByte (serialize_pairs r)
unfolding serialize_pairs
serialize_pairs-bytes [] h = tt
serialize_pairs-bytes ((key, value) ∷ r) h =
    All-append (copy (zeros 32) key) _ IsByte
      (copy-All IsByte (zeros 32) key (zeros-IsByte 32) h.0.0.1)
      (All-append (copy (zeros 32) value) (serialize_pairs r) IsByte
        (copy-All IsByte (zeros 32) value (zeros-IsByte 32) h.0.1.1) (serialize_pairs-bytes r h.1))

serialize_entries-bytes :
    (r : Storage) → All HasBytes32 (map put_entry r) → All IsByte (serialize_entries r)
unfolding serialize_entries
serialize_entries-bytes r h =
    All-append (be32 (length r)) (serialize_pairs r) IsByte (be32-bytes (length r))
      (serialize_pairs-bytes r h)

module _ {ipa : Ipa} where
  pub create_snapshot-bytes :
      (t t' : Trie ipa) (s : Snapshot)
      → IsReached t
      → create_snapshot ipa t ≡ some (t', s)
      → (t' ≡ (Trie.commit ipa t).1) × All IsByte s.bytes
  create_snapshot-bytes t t' s reached e =
      let c = (Trie.commit ipa t).1 in
      let r = commit-IsReached t reached in
      let ops = r.history in
      let (t1, e1, _, reads) = run-eq-latest {ipa = ipa} ops (HasBytes32-HasKey ops r.typed) in
      let same : c ≡ t1 = some-injective _ _ (sym r.runs ∙ e1) in
      let (entries, collected, samples) =
        collect_all-Samples c (final zero_bytes32 ops)
          (λ k len.
            ap (λ (x : Trie ipa). Trie.get ipa x k) same
            ∙ reads k len
            ∙ latest-final ops zero_bytes32 k)
          (λ k len. length-final ops zero_bytes32 k (HasBytes32-HasEntry ops r.typed) refl) in
      let both = some-injective _ _ (sym e ∙ create_snapshot-eq t entries collected) in
      (
        ap (λ (p : Trie ipa × Snapshot). p.0) both,
        subst (All IsByte) (sym (ap (λ (p : Trie ipa × Snapshot). p.1.bytes) both))
            (serialize_entries-bytes entries (samples-HasBytes32 ipa ops r.typed entries samples)),
      )
