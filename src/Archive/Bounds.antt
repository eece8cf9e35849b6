-- ===== src/Archive/Bounds.antt =====
-- `addBlock` of state.go keeps the archive within its size and its bookkeeping true.
use verkle_trie.Prelude.{
  ℕ, ◌+◌, ◌≤◌, ◌<◌, ◌≡◌, refl, ◌∙◌, sym, Bool, true, false, not, ◌&&◌, ◌||◌, some, [], ◌∷◌, length,
  arith, ltb, ◌==◌, Bool-cases, inl, inr, ◌⊎◌, subst, ne→==,
}
use verkle_trie.Archive.{
  Archive, Snapshot, Entries, lookup, insert, remove, record_block, prune_oldest, add_block,
  new_archive,
}
use verkle_trie.Archive.Entries.{
  AllKeys, IsMap, lookup-insert, insert-IsMap, remove-IsMap, length-insert, length-insert_pos,
  length-remove, insert-AllKeys, remove-AllKeys, AllKeys-map, least_below-present,
}

-- The bookkeeping of an archive but for its size.
pub record IsConsistent (a : Archive) : Type 0 where
  pub is_map : IsMap a.snapshots
  pub below : AllKeys (λ b. b ≤ a.max_block) a.snapshots
  pub present : a.has_blocks ≡ true → (s : Snapshot) × (lookup a.snapshots a.oldest_block ≡ some s)
  pub fresh : a.has_blocks ≡ false → (length a.snapshots ≡ 0) × (a.oldest_block ≡ 0)

pub record IsValid (a : Archive) : Type 0 where
  pub consistent : IsConsistent a
  pub bounded : 0 < a.max_size → length a.snapshots ≤ a.max_size

pub new_archive-IsValid : (max_size : ℕ) → IsValid (new_archive max_size)
unfolding new_archive
new_archive-IsValid max_size = record {
  consistent = record { is_map = tt; below = tt; present = λ h. cc; fresh = λ h. (refl, refl) };
  bounded = λ h. omega arith;
}

pub AllKeys-empty {ℓ} : (P : ℕ → Type ℓ) (m : Entries) → length m ≡ 0 → AllKeys P m
AllKeys-empty P [] h = tt
AllKeys-empty P (e ∷ m) h = absurd (omega arith)

module _ (a : Archive) (block : ℕ) (s : Snapshot) where
  pub lookup_inserted :
      (j : ℕ)
      → (t : Snapshot) × (lookup a.snapshots j ≡ some t)
      → (t : Snapshot) × (lookup (insert block s a.snapshots) j ≡ some t)
  lookup_inserted j (t, e) = elim (Bool-cases (block == j)) [
    | inl same ↦ (s, lookup-insert a.snapshots block j s ∙ rw same)
    | inr other ↦ (t, lookup-insert a.snapshots block j s ∙ rw other e)
  ]

  -- an oldest block that is not 0 is in the map
  kept :
      IsConsistent a
      → 0 < a.oldest_block
      → (t : Snapshot) × (lookup a.snapshots a.oldest_block ≡ some t)
  kept h pos = elim (Bool-cases a.has_blocks) [
    | inl has ↦ h.present has
    | inr none_yet ↦ absurd (omega (arith, (h.fresh none_yet).1))
  ]

  -- the new bookkeeping, by cases
  pub max_block-record_block :
      ((record_block a block s).max_block ≡ a.max_block)
        × (block ≤ a.max_block)
        × (a.has_blocks ≡ true)
      ⊎ ((record_block a block s).max_block ≡ block) × ((a.has_blocks ≡ true → a.max_block ≤ block))
  unfolding record_block
  max_block-record_block = elim (Bool-cases (not a.has_blocks || ltb a.max_block block)) [
    | inl newest ↦ inr (rw newest, ground arith)
    | inr old ↦ inl (rw old, ground arith, ground arith)
  ]

  pub has_blocks-record_block : (record_block a block s).has_blocks ≡ true
  unfolding record_block
  has_blocks-record_block = ground arith

  pub oldest-record_block :
      ((record_block a block s).oldest_block ≡ block)
        × ((block ≤ a.oldest_block) ⊎ (a.oldest_block ≡ 0))
      ⊎ (((record_block a block s).oldest_block ≡ a.oldest_block)
          × (a.oldest_block ≤ block)
          × (0 < a.oldest_block))
  unfolding record_block
  oldest-record_block = ground arith

  pub record_block-IsConsistent : IsConsistent a → IsConsistent (record_block a block s)
  unfolding record_block
  record_block-IsConsistent h = record {
    is_map = insert-IsMap a.snapshots block s h.is_map;
    below = elim max_block-record_block [
      | inl (e, le, _) ↦
          subst (λ n. AllKeys (λ b. b ≤ n) (insert block s a.snapshots)) (sym e)
            (insert-AllKeys (λ b. b ≤ a.max_block) a.snapshots block s le h.below)
      | inr (e, top) ↦
          subst (λ n. AllKeys (λ b. b ≤ n) (insert block s a.snapshots)) (sym e)
            (insert-AllKeys (λ b. b ≤ block) a.snapshots block s (omega arith)
              (elim (Bool-cases a.has_blocks) [
                | inr none_yet ↦ AllKeys-empty (λ b. b ≤ block) a.snapshots (h.fresh none_yet).0
                | inl some_yet ↦
                    AllKeys-map (λ b. b ≤ a.max_block) (λ b. b ≤ block) a.snapshots
                      (λ j le. omega (arith, top some_yet)) h.below
              ]))
    ];
    present = λ _. elim oldest-record_block [
      | inl (e, _) ↦
          subst (λ n. (t : Snapshot) × (lookup (insert block s a.snapshots) n ≡ some t)) (sym e)
            (s, lookup-insert a.snapshots block block s ∙ ground arith)
      | inr (e, _, pos) ↦
          subst (λ n. (t : Snapshot) × (lookup (insert block s a.snapshots) n ≡ some t)) (sym e)
            (lookup_inserted a.oldest_block (kept h pos))
    ];
    fresh = λ h. cc (has_blocks-record_block);
  }

-- the pruning of an archive that holds more than its size
pub prune_oldest-IsConsistent :
    (a : Archive)
    → IsConsistent a
    → a.has_blocks ≡ true
    → 1 < length a.snapshots
    → IsConsistent (prune_oldest a) × (length (prune_oldest a).snapshots + 1 ≡ length a.snapshots)
unfolding prune_oldest
prune_oldest-IsConsistent a h has more =
    let (s, e) = h.present has in
    let shorter = length-remove a.snapshots a.oldest_block s e in
    let below = remove-AllKeys (λ b. b ≤ a.max_block) a.snapshots a.oldest_block h.below in
    rw (ne→== (length a.snapshots) 0 (λ z. absurd (omega arith))) (
      record {
        is_map = remove-IsMap a.snapshots a.oldest_block h.is_map;
        below = below;
        present = λ _.
            least_below-present a.max_block (remove a.oldest_block a.snapshots) below (omega arith);
        fresh = λ no. cc (has);
      },
      shorter,
    )

max_size-prune_oldest : (a : Archive) → (prune_oldest a).max_size ≡ a.max_size
unfolding prune_oldest
max_size-prune_oldest a = ground arith

module _ (a : Archive) (block : ℕ) (s : Snapshot) where
  abbrev pub grown : Archive
  grown = record_block a block s

  pub sizes-record_block :
      (grown.max_size ≡ a.max_size)
      × (length grown.snapshots ≤ length a.snapshots + 1)
      × (0 < length grown.snapshots)
  unfolding record_block
  sizes-record_block =
      (refl, length-insert a.snapshots block s, length-insert_pos a.snapshots block s)

  -- whether `addBlock` prunes
  abbrev pub is_over : Bool
  is_over = ltb 0 grown.max_size && ltb grown.max_size (length grown.snapshots)

  pub add_block_over : is_over ≡ true → add_block a block s ≡ prune_oldest grown
  unfolding add_block
  add_block_over h = rw h

  pub add_block_within : is_over ≡ false → add_block a block s ≡ grown
  unfolding add_block
  add_block_within h = rw h

  -- Whatever blocks are added, in whatever order: a valid archive stays valid. A positive size is
  -- not passed, a block stands in the map once, no block is above the height, and the block that is
  -- evicted next is in the map.
  pub add_block-IsValid : IsValid a → IsValid (add_block a block s)
  add_block-IsValid v =
      let consistent = record_block-IsConsistent a block s v.consistent in
      elim (Bool-cases is_over) [
        | inr within ↦
            subst IsValid (sym (add_block_within within))
              (record { consistent = consistent; bounded = λ h. ground arith })
        | inl over ↦
            let (p, shorter) =
              prune_oldest-IsConsistent grown consistent (has_blocks-record_block a block s)
                (ground arith) in
            subst IsValid (sym (add_block_over over)) (record {
              consistent = p;
              bounded =
                  λ h. omega (arith, sizes-record_block, max_size-prune_oldest grown, v.bounded);
            })
      ]
