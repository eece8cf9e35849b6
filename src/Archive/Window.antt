-- ===== src/Archive/Window.antt =====
-- An archive of state.go to which blocks are added one after the other holds the last of them.
use verkle_trie.Prelude.{
  ℕ, zero, suc, ◌+◌, ◌-◌, ◌≤◌, ◌<◌, ◌≡◌, refl, ◌∙◌, sym, ap, Bool, true, not, ◌&&◌, ◌||◌, none,
  some, List, [], ◌∷◌, length, get_elem?, update, Bool-cases, inl, inr, arith, subst, ltb, leb,
  if◌then◌else◌,
}
use verkle_trie.Archive.{
  Archive, Snapshot, lookup, record_block, prune_oldest, add_block, new_archive, get_block,
}
use verkle_trie.Archive.Entries.{AllKeys-lookup, length-insert_new}
use verkle_trie.Archive.Bounds.{
  IsValid, new_archive-IsValid, add_block-IsValid, record_block-IsConsistent,
  has_blocks-record_block, prune_oldest-IsConsistent, is_over, grown, add_block_over,
  add_block_within,
}
use verkle_trie.Archive.Oldest.{
  IsOrdered, is_full, add_block-IsOrdered, get_block-add_block, lookup_above, is_over-eq-is_full,
}

-- the last `m` of the blocks 1 to `n`
abbrev pub is_recent : ℕ → ℕ → ℕ → Bool
is_recent m n j = ltb 0 j && (leb j n && ltb n (j + m))

add_block_keeps :
    (a : Archive) (block : ℕ) (s : Snapshot)
    → ((add_block a block s).max_size ≡ a.max_size)
      × ((add_block a block s).max_block
          ≡ (if not a.has_blocks || ltb a.max_block block then block else a.max_block))
      × ((add_block a block s).has_blocks ≡ true)
unfolding add_block record_block prune_oldest
add_block_keeps a block s = ground arith

-- The archive holds the snapshots `f` of the last `m` of `n` blocks.
record Window (m n : ℕ) (f : ℕ → Snapshot) (a : Archive) : Type 0 where
  valid : IsValid a
  ordered : IsOrdered a
  has : a.has_blocks ≡ true
  size : a.max_size ≡ m
  newest : a.max_block ≡ n
  count : length a.snapshots ≡ (if leb m n then m else n)
  finds : (j : ℕ) → get_block a j ≡ (if is_recent m n j then some (f j) else none)

module _ (m n : ℕ) (f : ℕ → Snapshot) (a : Archive) (pos : 0 < m) (some_yet : 0 < n)
    (w : Window m n f a) where
  recent_of_found : (j : ℕ) (t : Snapshot) → lookup a.snapshots j ≡ some t → is_recent m n j ≡ true
  unfolding get_block
  recent_of_found j t e = elim (Bool-cases (is_recent m n j)) [
    | inl h ↦ h
    | inr h ↦ cc (rw h at (w.finds j), e)
  ]

  oldest_eq : m ≤ n → a.oldest_block ≡ n + 1 - m
  unfolding get_block
  oldest_eq full =
      let (t, e) = w.valid.consistent.present w.has in
      let inside = recent_of_found a.oldest_block t e in
      let first : is_recent m n (n + 1 - m) ≡ true = ground arith in
      let le =
        AllKeys-lookup (λ b. a.oldest_block ≤ b) a.snapshots (n + 1 - m) (f (n + 1 - m))
          w.ordered.oldest (rw first at (w.finds (n + 1 - m))) in
      ground arith

  is_full_eq : is_full a ≡ leb m n
  is_full_eq = rw (w.size, w.count) (ground arith)

  module _ (s : Snapshot) where
    above : a.max_block < n + 1
    above = let e = w.newest in omega arith

    length-grown : length (grown a (n + 1) s).snapshots ≡ length a.snapshots + 1
    unfolding record_block
    length-grown =
        length-insert_new a.snapshots (n + 1) s
          (lookup_above a (n + 1) s w.valid w.ordered w.has above)

    is_over_eq : is_over a (n + 1) s ≡ is_full a
    is_over_eq = is_over-eq-is_full a (n + 1) s w.valid w.ordered w.has above

    count_pos : 0 < length a.snapshots
    count_pos = ground (arith, w.count)

    length-add_block :
        length (add_block a (n + 1) s).snapshots ≡ (if leb m (n + 1) then m else n + 1)
    length-add_block = elim (Bool-cases (is_over a (n + 1) s)) [
      | inl over ↦
          let full = sym (is_over_eq ∙ is_full_eq) ∙ over in
          let (_, shorter) =
            prune_oldest-IsConsistent (grown a (n + 1) s)
              (record_block-IsConsistent a (n + 1) s w.valid.consistent)
              (has_blocks-record_block a (n + 1) s) (omega (arith, length-grown, count_pos)) in
          rw (add_block_over a (n + 1) s over) (ground (arith, length-grown, w.count))
      | inr within ↦
          let room = sym (is_over_eq ∙ is_full_eq) ∙ within in
          rw (add_block_within a (n + 1) s within) (ground (arith, length-grown, w.count))
    ]

    max_size-add_block : (add_block a (n + 1) s).max_size ≡ m
    max_size-add_block = (add_block_keeps a (n + 1) s).0 ∙ w.size

    max_block-add_block :
        ((add_block a (n + 1) s).max_block ≡ n + 1) × ((add_block a (n + 1) s).has_blocks ≡ true)
    max_block-add_block =
        let (_, newest, has) = add_block_keeps a (n + 1) s in
        (newest ∙ (rw w.has (ground (arith, above))), has)

    get_block-add_block_recent :
        (j : ℕ)
        → get_block (add_block a (n + 1) s) j
          ≡ (if is_recent m (n + 1) j then some (update f (n + 1) s j) else none)
    get_block-add_block_recent j =
        get_block-add_block a (n + 1) s w.valid w.ordered w.has above j
        ∙ (elim (Bool-cases (leb m n)) [
          | inl full ↦ rw (w.finds j, is_full_eq, full, oldest_eq (ground arith)) (ground arith)
          | inr room ↦ rw (w.finds j, is_full_eq, room) (ground arith)
        ])

    add_block-Window : Window m (n + 1) (update f (n + 1) s) (add_block a (n + 1) s)
    add_block-Window = record {
      valid = add_block-IsValid a (n + 1) s w.valid;
      ordered = add_block-IsOrdered a (n + 1) s w.valid w.ordered (omega arith);
      has = max_block-add_block.1;
      size = max_size-add_block;
      newest = max_block-add_block.0;
      count = length-add_block;
      finds = get_block-add_block_recent;
    }

new_archive-IsOrdered : (m : ℕ) → IsOrdered (new_archive m)
unfolding new_archive
new_archive-IsOrdered m = record { positive = tt; oldest = tt }

abbrev one_block : ℕ → Snapshot → Archive
one_block m s = record {
  snapshots = (1, s) ∷ [];
  max_block = 1;
  has_blocks = true;
  max_size = m;
  oldest_block = 1;
}

first_block : (m : ℕ) (s : Snapshot) → 0 < m → add_block (new_archive m) 1 s ≡ one_block m s
unfolding add_block record_block prune_oldest new_archive
first_block zero s pos = absurd (omega arith)
first_block (suc m) s pos = ground arith

one_block-finds :
    (m : ℕ) (s : Snapshot) (f : ℕ → Snapshot) (j : ℕ)
    → 0 < m
    → get_block (one_block m s) j ≡ (if is_recent m 1 j then some (update f 1 s j) else none)
unfolding get_block lookup
one_block-finds m s f j pos = ground arith

first-Window :
    (m : ℕ) (s : Snapshot) (f : ℕ → Snapshot)
    → 0 < m
    → Window m 1 (update f 1 s) (add_block (new_archive m) 1 s)
first-Window m s f pos =
    let e = first_block m s pos in
    record {
      valid = add_block-IsValid (new_archive m) 1 s (new_archive-IsValid m);
      ordered =
          add_block-IsOrdered (new_archive m) 1 s (new_archive-IsValid m) (new_archive-IsOrdered m)
            (omega arith);
      has = ap (λ (a : Archive). a.has_blocks) e;
      size = ap (λ (a : Archive). a.max_size) e;
      newest = ap (λ (a : Archive). a.max_block) e;
      count = ap (λ (a : Archive). length a.snapshots) e ∙ ground arith;
      finds = λ j. ap (λ a. get_block a j) e ∙ one_block-finds m s f j pos;
    }

-- snapshots of blocks from `block` on, added in order
unfoldable pub add_all : Archive → ℕ → List Snapshot → Archive
add_all a block [] = a
add_all a block (s ∷ snapshots) = add_all (add_block a block s) (block + 1) snapshots

extend : (ℕ → Snapshot) → ℕ → List Snapshot → ℕ → Snapshot
extend f block [] = f
extend f block (s ∷ snapshots) = extend (update f block s) (block + 1) snapshots

extend_before :
    (f : ℕ → Snapshot) (block : ℕ) (snapshots : List Snapshot) (j : ℕ)
    → j < block
    → extend f block snapshots j ≡ f j
unfolding extend
extend_before f block [] j h = refl
extend_before f block (s ∷ snapshots) j h =
    extend_before (update f block s) (block + 1) snapshots j (omega arith) ∙ ground arith

extend_within :
    (f : ℕ → Snapshot) (block : ℕ) (snapshots : List Snapshot) (i : ℕ)
    → i < length snapshots
    → get_elem? snapshots i ≡ some (extend f block snapshots (block + i))
unfolding extend
extend_within f block [] i h = absurd (omega arith)
extend_within f block (s ∷ snapshots) zero h = ap some (
    sym (
      extend_before (update f block s) (block + 1) snapshots (block + 0) (omega arith)
      ∙ ground arith))
extend_within f block (s ∷ snapshots) (suc i) h =
    extend_within (update f block s) (block + 1) snapshots i (omega arith)
    ∙ ap (λ j. some (extend (update f block s) (block + 1) snapshots j)) (omega arith)

add_all-Window :
    (m n : ℕ) (f : ℕ → Snapshot) (a : Archive) (snapshots : List Snapshot)
    → 0 < m
    → 0 < n
    → Window m n f a
    → Window m (n + length snapshots) (extend f (n + 1) snapshots) (add_all a (n + 1) snapshots)
unfolding add_all extend
add_all-Window m n f a [] pos some_yet w = subst (λ k. Window m k f a) (omega arith) w
add_all-Window m n f a (s ∷ snapshots) pos some_yet w =
    subst
      (λ k.
        Window m k (extend (update f (n + 1) s) (n + 1 + 1) snapshots)
          (add_all (add_block a (n + 1) s) (n + 1 + 1) snapshots))
      (omega arith)
      (add_all-Window m (n + 1) (update f (n + 1) s) (add_block a (n + 1) s) snapshots pos
        (omega arith) (add_block-Window m n f a pos some_yet w s))

extend_all :
    (s : Snapshot) (snapshots : List Snapshot) (f : ℕ → Snapshot) (j : ℕ)
    → 0 < j
    → j ≤ suc (length snapshots)
    → get_elem? (s ∷ snapshots) (j - 1) ≡ some (extend (update f 1 s) 2 snapshots j)
extend_all s snapshots f zero h h' = absurd (omega arith)
extend_all s snapshots f (suc zero) h h' =
    ap some (sym (extend_before (update f 1 s) 2 snapshots 1 (omega arith)))
extend_all s snapshots f (suc (suc i)) h h' =
    let before : suc (suc i) - 1 ≡ suc i = omega arith in
    ap (get_elem? (s ∷ snapshots)) before
    ∙ extend_within (update f 1 s) 2 snapshots i (omega arith)
    ∙ ap (λ k. some (extend (update f 1 s) 2 snapshots k)) (omega arith)

-- A new archive of a positive size `m`, to which the blocks 1, 2 and so on are added in this order,
-- has for block `j` the snapshot that was added for it if it is one of the last `m`, and nothing for
-- any other block.
pub add_all-get_block :
    (m : ℕ) (snapshots : List Snapshot) (j : ℕ)
    → 0 < m
    → get_block (add_all (new_archive m) 1 snapshots) j
      ≡ (if is_recent m (length snapshots) j then get_elem? snapshots (j - 1) else none)
unfolding add_all get_block new_archive lookup
add_all-get_block m [] j pos = ground arith
add_all-get_block m (s ∷ snapshots) j pos =
    let n = length snapshots in
    let total : 1 + n ≡ suc n = omega arith in
    let f = extend (update (λ _. s) 1 s) 2 snapshots in
    let w =
      add_all-Window m 1 (update (λ _. s) 1 s) (add_block (new_archive m) 1 s) snapshots pos
        (omega arith) (first-Window m s (λ _. s) pos) in
    w.finds j
    ∙ ap (λ k. if is_recent m k j then some (f j) else none) total
    ∙ (elim (Bool-cases (is_recent m (suc n) j)) [
      | inr old ↦ rw old refl
      | inl recent ↦
          rw recent (sym (extend_all s snapshots (λ _. s) j (ground arith) (ground arith)))
    ])
