-- ===== src/Archive/Oldest.antt =====
-- Which block `addBlock` of state.go evicts.
use verkle_trie.Prelude.{
  ℕ, zero, suc, ◌≤◌, ◌<◌, ◌≡◌, ◌∙◌, sym, ap, subst, Bool, true, ◌&&◌, none, some, [], ◌∷◌, length,
  arith, ltb, ◌==◌, if◌then◌else◌, Bool-cases, Option-cases, inl, inr, ◌⊎◌, leb, ne→==,
}
use verkle_trie.Archive.{
  Archive, Snapshot, lookup, insert, remove, record_block, prune_oldest, add_block, new_archive,
  get_block,
}
use verkle_trie.Archive.Entries.{
  AllKeys, lookup-insert, lookup-remove, insert-AllKeys, remove-AllKeys, AllKeys-map,
  AllKeys-lookup, least_below-AllKeys, length-insert_new,
}
use verkle_trie.Archive.Bounds.{
  AllKeys-empty, IsConsistent, IsValid, record_block-IsConsistent, oldest-record_block,
  sizes-record_block, is_over, grown, add_block_over, add_block_within,
}

-- Archives of blocks from 1 on: the block to be evicted is the oldest.
pub record IsOrdered (a : Archive) : Type 0 where
  pub positive : AllKeys (λ b. 0 < b) a.snapshots
  pub oldest : AllKeys (λ b. a.oldest_block ≤ b) a.snapshots

prune_oldest-IsOrdered : (a : Archive) → IsOrdered a → IsOrdered (prune_oldest a)
unfolding prune_oldest
prune_oldest-IsOrdered a h = elim (Bool-cases (length a.snapshots == 0)) [
  | inl none_yet ↦ rw none_yet h
  | inr more ↦ rw more (record {
    positive = remove-AllKeys (λ b. 0 < b) a.snapshots a.oldest_block h.positive;
    oldest = least_below-AllKeys a.max_block (remove a.oldest_block a.snapshots);
  })
]

-- an archive with its oldest block at 0 is empty
below_all :
    (a : Archive) (block : ℕ)
    → IsConsistent a
    → IsOrdered a
    → (block ≤ a.oldest_block) ⊎ (a.oldest_block ≡ 0)
    → AllKeys (λ b. block ≤ b) a.snapshots
below_all a block c h (inl le) =
    AllKeys-map (λ b. a.oldest_block ≤ b) (λ b. block ≤ b) a.snapshots (λ j le'. omega arith)
      h.oldest
below_all a block c h (inr zero_oldest) = elim (Bool-cases a.has_blocks) [
  | inr none_yet ↦ AllKeys-empty (λ b. block ≤ b) a.snapshots (c.fresh none_yet).0
  | inl has ↦
      let (s, e) = c.present has in
      let pos = AllKeys-lookup (λ b. 0 < b) a.snapshots a.oldest_block s h.positive e in
      absurd (omega arith)
]

pub record_block-IsOrdered :
    (a : Archive) (block : ℕ) (s : Snapshot)
    → IsConsistent a
    → IsOrdered a
    → 0 < block
    → IsOrdered (record_block a block s)
unfolding record_block
record_block-IsOrdered a block s c h pos = record {
  positive = insert-AllKeys (λ b. 0 < b) a.snapshots block s pos h.positive;
  oldest = elim (oldest-record_block a block s) [
    | inr (e, le, _) ↦
        subst (λ n. AllKeys (λ b. n ≤ b) (insert block s a.snapshots)) (sym e)
          (insert-AllKeys (λ b. a.oldest_block ≤ b) a.snapshots block s le h.oldest)
    | inl (e, why) ↦
        subst (λ n. AllKeys (λ b. n ≤ b) (insert block s a.snapshots)) (sym e)
          (insert-AllKeys (λ b. block ≤ b) a.snapshots block s (omega arith)
            (below_all a block c h why))
  ];
}

-- Where only blocks from 1 on are added, in whatever order, the block to be evicted next is the
-- oldest of the archive.
pub add_block-IsOrdered :
    (a : Archive) (block : ℕ) (s : Snapshot)
    → IsValid a
    → IsOrdered a
    → 0 < block
    → IsOrdered (add_block a block s)
add_block-IsOrdered a block s v h pos =
    let after = record_block-IsOrdered a block s v.consistent h pos in
    elim (Bool-cases (is_over a block s)) [
      | inl over ↦
          subst IsOrdered (sym (add_block_over a block s over))
            (prune_oldest-IsOrdered (grown a block s) after)
      | inr within ↦ subst IsOrdered (sym (add_block_within a block s within)) after
    ]

-- an archive that has reached its size
abbrev pub is_full : Archive → Bool
is_full a = ltb 0 a.max_size && leb a.max_size (length a.snapshots)

module _ (a : Archive) (block : ℕ) (s : Snapshot) (v : IsValid a) (h : IsOrdered a)
    (has : a.has_blocks ≡ true) (above : a.max_block < block) where
  pub lookup_above : lookup a.snapshots block ≡ none
  lookup_above = elim (Option-cases (lookup a.snapshots block)) [
    | inl e ↦ e
    | inr (t, e) ↦
        let le = AllKeys-lookup (λ b. b ≤ a.max_block) a.snapshots block t v.consistent.below e in
        absurd (omega arith)
  ]

  oldest_bounds : (0 < a.oldest_block) × (a.oldest_block < block)
  oldest_bounds =
      let (t, e) = v.consistent.present has in
      let pos = AllKeys-lookup (λ b. 0 < b) a.snapshots a.oldest_block t h.positive e in
      let le =
        AllKeys-lookup (λ b. b ≤ a.max_block) a.snapshots a.oldest_block t v.consistent.below e in
      (omega arith, omega arith)

  oldest_stays : (grown a block s).oldest_block ≡ a.oldest_block
  oldest_stays = elim (oldest-record_block a block s) [
    | inr (e, _, _) ↦ e
    | inl (_, why) ↦ elim why [
      | inl le ↦ absurd (omega (arith, oldest_bounds))
      | inr z ↦ absurd (omega (arith, oldest_bounds))
    ]
  ]

  pub is_over-eq-is_full : is_over a block s ≡ is_full a
  unfolding record_block
  is_over-eq-is_full = rw (length-insert_new a.snapshots block s lookup_above) (ground arith)

  lookup-grown :
      (j : ℕ)
      → lookup (grown a block s).snapshots j ≡ (if block == j then some s else lookup a.snapshots j)
  unfolding record_block
  lookup-grown j = lookup-insert a.snapshots block j s

  lookup-prune :
      (j : ℕ)
      → lookup (prune_oldest (grown a block s)).snapshots j
        ≡ (if a.oldest_block == j then none else lookup (grown a block s).snapshots j)
  unfolding prune_oldest
  lookup-prune j =
      let filled =
        ne→== (length (grown a block s).snapshots) 0
          (λ z. absurd (omega (arith, sizes-record_block a block s))) in
      rw (filled, oldest_stays)
        (lookup-remove (grown a block s).snapshots a.oldest_block j
          (record_block-IsConsistent a block s v.consistent).is_map)

  -- Adding a block above all others to an archive of blocks from 1 on: the block is found, and every
  -- other is as before, but that an archive that has reached its size loses its oldest block.
  pub get_block-add_block :
      (j : ℕ)
      → get_block (add_block a block s) j ≡ (
          if block == j
          then some s
          else if is_full a && a.oldest_block == j
          then none
          else get_block a j)
  unfolding get_block
  get_block-add_block j =
      let found = lookup-grown j in
      let (_, apart) = oldest_bounds in
      elim (Bool-cases (is_full a)) [
        | inl full ↦
            ap (λ (r : Archive). lookup r.snapshots j)
              (add_block_over a block s (is_over-eq-is_full ∙ full))
            ∙ lookup-prune j
            ∙ rw (full, found) (ground arith)
        | inr room ↦
            ap (λ (r : Archive). lookup r.snapshots j)
              (add_block_within a block s (is_over-eq-is_full ∙ room))
            ∙ rw (room, found)
      ]

abbrev entries_0_b : ℕ → Snapshot → Snapshot → Archive
entries_0_b b s t = record {
  snapshots = (0, s) ∷ (b, t) ∷ [];
  max_block = b;
  has_blocks = true;
  max_size = 2;
  oldest_block = b;
}

-- after block 0, any block becomes the one to evict
two_blocks :
    (b : ℕ) (s t : Snapshot)
    → 0 < b
    → add_block (add_block (new_archive 2) 0 s) b t ≡ entries_0_b b s t
unfolding add_block record_block prune_oldest new_archive
two_blocks zero s t hb = elim hb [ ]
two_blocks (suc b) s t hb = ground arith

third_block :
    (b c : ℕ) (u s t : Snapshot)
    → 0 < b
    → b < c
    → (add_block (entries_0_b b s t) c u).snapshots ≡ (0, s) ∷ (c, u) ∷ []
unfolding add_block record_block prune_oldest
third_block zero c u s t hb hc = elim hb [ ]
third_block (suc b) c u s t hb hc = ground arith

-- An archive whose first block is 0 forgets that 0 is its oldest block: with a size of 2, the third
-- block evicts the second, though block 0 is older and stays.
pub add_block-evicts_newer :
    (b c : ℕ) (s t u : Snapshot)
    → 0 < b
    → b < c
    → let a = add_block (add_block (add_block (new_archive 2) 0 s) b t) c u in
      (get_block a 0 ≡ some s) × (get_block a b ≡ none) × (get_block a c ≡ some u)
unfolding get_block
add_block-evicts_newer b c s t u hb hc =
    let kept =
      ap (λ (a : Archive). (add_block a c u).snapshots) (two_blocks b s t hb)
      ∙ third_block b c u s t hb hc in
    (
      ap (λ m. lookup m 0) kept,
      ap (λ m. lookup m b) kept ∙ ground arith,
      ap (λ m. lookup m c) kept ∙ ground arith,
    )
