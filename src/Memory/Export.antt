-- ===== src/Memory/Export.antt =====
-- state.go: `Export`, over a writer that may fail.
use verkle_trie.Prelude.{
  ◌≡◌, refl, ◌∙◌, sym, ap, Bool, false, Option, none, some, ◌>>=◌, List, [], ◌∷◌, ◌++◌, Bytes, be32,
  length, if◌then◌else◌, Bool-cases, inl, inr, zeros,
}
use mathlib.Core.List.{append_assoc, append-nil}
use verkle_trie.Archive.{Snapshot}
use verkle_trie.Snapshot.{create_snapshot, get_meta_data}
use verkle_trie.State.{Env}
use verkle_trie.State.View.{Views}
use verkle_trie.State.Proofs.{get_hash, commit-Views, get_hash-get_hash}
use verkle_trie.Trie
use verkle_trie.Trie.{Trie}
use verkle_trie.Memory.Blocks.{create_snapshot-total}

-- io.Writer: the writer afterwards, and whether the write failed
pub record Writer : Type 1 where
  pub Out : Type 0
  pub write : Out → Bytes → Out × Bool

-- A write that succeeds appends to what was written.
pub record Appends (w : Writer) : Type 0 where
  pub written : w.Out → Bytes
  pub appends :
      (out : w.Out) (bytes : Bytes)
      → (w.write out bytes).1 ≡ false
      → written (w.write out bytes).0 ≡ written out ++ bytes

-- which write failed
pub data ExportFailure : Type 0 where
  metadata_length metadata part_length part : ExportFailure

-- the writes of `Export` in their order
unfoldable pub frames : Snapshot → List (ExportFailure × Bytes)
frames s =
    (metadata_length, be32 (length (get_meta_data s)))
    ∷ (metadata, get_meta_data s)
    ∷ (part_length, be32 (length s.bytes))
    ∷ (part, s.bytes)
    ∷ []

-- all bytes of some writes
abbrev pub all_bytes : List (ExportFailure × Bytes) → Bytes
all_bytes [] = []
all_bytes ((kind, bytes) ∷ rest) = bytes ++ all_bytes rest

-- the hash that is returned, which beside an error is `common.Hash{}`
abbrev pub hash_or_zero : Option ExportFailure → Bytes → Bytes
hash_or_zero none hash = hash
hash_or_zero (some kind) hash = zeros 32

-- A snapshot as it is exported: its metadata and its bytes, each behind its length.
abbrev pub framed : Snapshot → Bytes
framed s =
    be32 (length (get_meta_data s)) ++ (get_meta_data s ++ (be32 (length s.bytes) ++ s.bytes))

all_bytes-frames : (s : Snapshot) → all_bytes (frames s) ≡ framed s
unfolding frames
all_bytes-frames s =
    ap (λ x. be32 (length (get_meta_data s)) ++ (get_meta_data s ++ (be32 (length s.bytes) ++ x)))
      (append-nil s.bytes)

module _ (w : Writer) where
  -- `if _, err := out.Write(...); err != nil { return ... }`, for each
  unfoldable pub write_frames : List (ExportFailure × Bytes) → w.Out → w.Out × Option ExportFailure
  write_frames [] out = (out, none)
  write_frames ((kind, bytes) ∷ rest) out =
      let r = w.write out bytes in
      let after = write_frames rest r.0 in if r.1 then (r.0, some kind) else after

  -- the trie and the writer afterwards, the error, and the root hash
  unfoldable pub export_state :
      (env : Env)
      → Trie env.ipa
      → w.Out
      → Option (Trie env.ipa × w.Out × Option ExportFailure × Bytes)
  unfolding write_frames frames
  export_state env t out = do
    let hash = get_hash env t
    r ← create_snapshot env.ipa hash.1
    let done = write_frames (frames r.1) out
    some (r.0, done.0, done.1, hash_or_zero done.1 hash.0)

  write_frames-written :
      (log : Appends w) (fs : List (ExportFailure × Bytes)) (out : w.Out)
      → (write_frames fs out).1 ≡ none
      → log.written (write_frames fs out).0 ≡ log.written out ++ all_bytes fs
  unfolding write_frames
  write_frames-written log [] out h = sym (append-nil (log.written out))
  write_frames-written log ((kind, bytes) ∷ fs) out h = elim (Bool-cases (w.write out bytes).1) [
    | inl failed ↦ cc (rw failed at h)
    | inr fine ↦
        (rw fine (write_frames-written log fs (w.write out bytes).0 (rw fine at h)))
        ∙ ap (λ x. x ++ all_bytes fs) (log.appends out bytes fine)
        ∙ append_assoc (log.written out) bytes (all_bytes fs)
  ]

  -- `Export` of a state with a valid trie does not panic and keeps its values. The snapshot that
  -- `CreateSnapshot` makes of the state, after its hash, has that hash as its commitment. Where no
  -- write fails, and each write that succeeds appends its bytes, the root hash of the state is
  -- returned, and of that snapshot the metadata and the bytes are written, each behind its length.
  -- Beside an error the hash is zero.
  pub export_state-written :
      (log : Appends w) (env : Env) (t : Trie env.ipa) (f : Bytes → Bytes) (out : w.Out)
      → Views env t f
      → (t' : Trie env.ipa) × (out' : w.Out) × (error : Option ExportFailure) × (hash : Bytes)
        × (s : Snapshot) × (export_state env t out ≡ some (t', out', error, hash))
        × Views env t' f
        × (create_snapshot env.ipa (get_hash env t).1 ≡ some (t', s))
        × (s.commitment ≡ (get_hash env t).0)
        × (error ≡ none
            → (hash ≡ (get_hash env t).0) × (log.written out' ≡ log.written out ++ framed s))
        × ((kind : ExportFailure) → error ≡ some kind → hash ≡ zeros 32)
  unfolding export_state
  export_state-written log env t f out v =
      let v1 = commit-Views env v in
      let (s, e, c) = create_snapshot-total {env = env} (get_hash env t).1 f v1 in
      let done = write_frames (frames s) out in
      (
        (Trie.commit env.ipa (get_hash env t).1).1,
        done.0,
        done.1,
        hash_or_zero done.1 (get_hash env t).0,
        s,
        rw e refl,
        unfold get_hash in commit-Views env v1,
        e,
        c ∙ get_hash-get_hash env t f v,
        λ fine. (
          ap (λ x. hash_or_zero x (get_hash env t).0) fine,
          write_frames-written log (frames s) out fine
              ∙ ap (λ x. log.written out ++ x) (all_bytes-frames s),
        ),
        λ kind failed. ap (λ x. hash_or_zero x (get_hash env t).0) failed,
      )
