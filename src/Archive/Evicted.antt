-- ===== src/Archive/Evicted.antt =====
-- `addBlock` of state.go: which block an archive loses, whatever the order in which blocks come.
use verkle_trie.Prelude.{
  ℕ, ◌≤◌, ◌<◌, ◌≡◌, ◌∙◌, sym, ap, Bool, true, false, ◌&&◌, not, Option, none, some, length, arith,
  ◌==◌, if◌then◌else◌, Bool-cases, Option-cases, inl, inr, ◌⊎◌, ne→==, ==_iff, ==_refl, refl,
}
use verkle_trie.Archive.{
  Archive, Snapshot, lookup, record_block, prune_oldest, add_block, get_block,
}
use verkle_trie.Archive.Entries.{
  AllKeys-lookup, lookup-insert, lookup-remove, length-insert_new, length-insert_old,
}
use verkle_trie.Archive.Bounds.{
  IsValid, record_block-IsConsistent, has_blocks-record_block, sizes-record_block, is_over, grown,
  add_block_over, add_block_within,
}
use verkle_trie.Archive.Oldest.{IsOrdered, is_full, record_block-IsOrdered, add_block-IsOrdered}

-- `oldest` is the least of the blocks of an archive and one more block.
pub record IsEarliest (a : Archive) (block oldest : ℕ) : Type 0 where
  pub below_block : oldest ≤ block
  pub below_all : (j : ℕ) (t : Snapshot) → get_block a j ≡ some t → oldest ≤ j
  pub among : (oldest ≡ block) ⊎ ((t : Snapshot) × (get_block a oldest ≡ some t))

abbrev pub is_held : Option Snapshot → Bool
is_held none = false
is_held (some s) = true

-- a new block does not fit
abbrev pub overflows : Archive → ℕ → Bool
overflows a block = is_full a && not (is_held (get_block a block))

module _ (a : Archive) (block : ℕ) (s : Snapshot) (v : IsValid a) where
  is_over-eq-overflows : is_over a block s ≡ overflows a block
  unfolding record_block get_block
  is_over-eq-overflows = elim (Option-cases (lookup a.snapshots block)) [
    | inl e ↦ rw (e, length-insert_new a.snapshots block s e) (ground arith)
    | inr (t, e) ↦
        let bounded = v.bounded in
        rw (e, length-insert_old a.snapshots block s t e) (ground (arith, bounded))
  ]

  get_block-grown :
      (j : ℕ) → get_block (grown a block s) j ≡ (if block == j then some s else get_block a j)
  unfolding get_block record_block
  get_block-grown j = lookup-insert a.snapshots block j s

  get_block-prune_oldest :
      (j : ℕ)
      → get_block (prune_oldest (grown a block s)) j
        ≡ (if (grown a block s).oldest_block == j then none else get_block (grown a block s) j)
  unfolding get_block prune_oldest
  get_block-prune_oldest j =
      let filled =
        ne→== (length (grown a block s).snapshots) 0
          (λ z. absurd (omega (arith, sizes-record_block a block s))) in
      rw filled (
        lookup-remove (grown a block s).snapshots (grown a block s).oldest_block j
          (record_block-IsConsistent a block s v.consistent).is_map)

  module _ (h : IsOrdered a) (pos : 0 < block) where
    oldest_below :
        (j : ℕ) (t : Snapshot)
        → get_block (grown a block s) j ≡ some t
        → (grown a block s).oldest_block ≤ j
    unfolding get_block
    oldest_below j t e =
        AllKeys-lookup (λ b. (grown a block s).oldest_block ≤ b) (grown a block s).snapshots j t
          (record_block-IsOrdered a block s v.consistent h pos).oldest e

    oldest-IsEarliest : IsEarliest a block (grown a block s).oldest_block
    unfolding get_block
    oldest-IsEarliest =
        let g = grown a block s in
        record {
          below_block = oldest_below block s (get_block-grown block ∙ rw (==_refl block) refl);
          below_all = λ j t e. elim (Bool-cases (block == j)) [
            | inl same ↦ oldest_below j s (get_block-grown j ∙ rw same refl)
            | inr other ↦ oldest_below j t (get_block-grown j ∙ rw other e)
          ];
          among = elim (Bool-cases (block == g.oldest_block)) [
            | inl same ↦ inl (sym ((==_iff block g.oldest_block).0 same))
            | inr other ↦
                let (t, e) =
                  (record_block-IsConsistent a block s v.consistent).present
                    (has_blocks-record_block a block s) in
                inr (t, rw other at (sym (get_block-grown g.oldest_block) ∙ e))
          ];
        }

    -- With blocks from 1 on, in whatever order they come: `addBlock` of a valid archive puts the
    -- snapshot under its block and keeps every other, but that a new block in an archive that has
    -- reached its size makes it lose the least of its blocks and the new one, and no other. The
    -- block to be evicted next is again a lower bound of those that are left.
    pub add_block-evicts_oldest :
        (oldest : ℕ) × IsEarliest a block oldest
        × ((j : ℕ)
            → get_block (add_block a block s) j ≡ (
                if overflows a block && oldest == j
                then none
                else if block == j
                then some s
                else get_block a j))
        × IsOrdered (add_block a block s)
    add_block-evicts_oldest =
        let g = grown a block s in
        (
          g.oldest_block,
          oldest-IsEarliest,
          λ j. elim (Bool-cases (overflows a block)) [
            | inl over ↦
                ap (λ (r : Archive). get_block r j)
                  (add_block_over a block s (is_over-eq-overflows ∙ over))
                ∙ get_block-prune_oldest j
                ∙ rw (over, get_block-grown j) refl
            | inr room ↦
                ap (λ (r : Archive). get_block r j)
                  (add_block_within a block s (is_over-eq-overflows ∙ room))
                ∙ rw room (get_block-grown j)
          ],
          add_block-IsOrdered a block s v h pos,
        )
