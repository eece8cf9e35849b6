-- ===== src/Archive/Held.antt =====
-- state.go: what holds of every snapshot that an archive is given holds of all that it returns.
use verkle_trie.Prelude.{
  ℕ, ◌≡◌, some, [], ◌∷◌, ◌&&◌, length, ltb, ◌==◌, All, Bool-cases, inl, inr, subst,
}
use mathlib.Core.Option.{some-injective}
use verkle_trie.Archive.{
  Snapshot, Entries, Archive, lookup, insert, remove, prune_oldest, record_block, add_block,
  get_block, new_archive,
}

module _ (P : Snapshot → Type 0) where
  abbrev HasAll : Entries → Type 0
  HasAll m = All (λ (e : ℕ × Snapshot). P e.1) m

  -- every snapshot of the archive satisfies `P`
  abbrev pub IsHeld : Archive → Type 0
  IsHeld a = HasAll a.snapshots

  insert-HasAll :
      (block : ℕ) (s : Snapshot) (m : Entries) → P s → HasAll m → HasAll (insert block s m)
  unfolding insert
  insert-HasAll block s [] p h = (p, tt)
  insert-HasAll block s ((b, t) ∷ m) p h = elim (Bool-cases (b == block)) [
    | inl same ↦ rw same (p, h.1)
    | inr other ↦ rw other (h.0, insert-HasAll block s m p h.1)
  ]

  remove-HasAll : (block : ℕ) (m : Entries) → HasAll m → HasAll (remove block m)
  unfolding remove
  remove-HasAll block [] h = tt
  remove-HasAll block ((b, t) ∷ m) h = elim (Bool-cases (b == block)) [
    | inl same ↦ rw same h.1
    | inr other ↦ rw other (h.0, remove-HasAll block m h.1)
  ]

  lookup-HasAll :
      (m : Entries) (block : ℕ) (s : Snapshot) → HasAll m → lookup m block ≡ some s → P s
  unfolding lookup
  lookup-HasAll [] block s h e = cc
  lookup-HasAll ((b, t) ∷ m) block s h e = elim (Bool-cases (b == block)) [
    | inl same ↦ subst P (some-injective _ _ (rw same at e)) h.0
    | inr other ↦ lookup-HasAll m block s h.1 (rw other at e)
  ]

  prune_oldest-IsHeld : (a : Archive) → IsHeld a → IsHeld (prune_oldest a)
  unfolding prune_oldest
  prune_oldest-IsHeld a h = elim (Bool-cases (length a.snapshots == 0)) [
    | inl empty ↦ rw empty h
    | inr full ↦ rw full (remove-HasAll a.oldest_block a.snapshots h)
  ]

  pub add_block-IsHeld :
      (a : Archive) (block : ℕ) (s : Snapshot) → P s → IsHeld a → IsHeld (add_block a block s)
  unfolding add_block record_block
  add_block-IsHeld a block s p h =
      let a' = record_block a block s in
      let held : IsHeld a' = insert-HasAll block s a.snapshots p h in
      elim (Bool-cases (ltb 0 a'.max_size && ltb a'.max_size (length a'.snapshots))) [
        | inl over ↦ rw over (prune_oldest-IsHeld a' held)
        | inr under ↦ rw under held
      ]

  pub get_block-IsHeld :
      (a : Archive) (block : ℕ) (s : Snapshot) → IsHeld a → get_block a block ≡ some s → P s
  unfolding get_block
  get_block-IsHeld a block s h e = lookup-HasAll a.snapshots block s h e

  pub new_archive-IsHeld : (size : ℕ) → IsHeld (new_archive size)
  unfolding new_archive
  new_archive-IsHeld size = tt
