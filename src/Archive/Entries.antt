-- ===== src/Archive/Entries.antt =====
-- The map of the archive of state.go: lookups, keys and sizes.
use verkle_trie.Prelude.{
  ℕ, ◌+◌, ◌≤◌, ◌<◌, ◌≡◌, refl, ◌∙◌, sym, ap, false, none, some, [], ◌∷◌, length, arith, ltb, ◌==◌,
  if◌then◌else◌, Bool-cases, inl, inr, ◌⊎◌, ==_iff, subst,
}
use verkle_trie.Archive.{Entries, Snapshot, lookup, insert, remove, least_below}

-- Every block of the map satisfies `P`.
abbrev pub AllKeys {ℓ} : (ℕ → Type ℓ) → Entries → Type ℓ
AllKeys P [] = Unit
AllKeys P ((b, s) ∷ m) = P b × AllKeys P m

-- a block stands once
abbrev pub IsMap : Entries → Type 0
IsMap [] = Unit
IsMap ((b, s) ∷ m) = (lookup m b ≡ none) × IsMap m

pub lookup-insert :
    (m : Entries) (block j : ℕ) (s : Snapshot)
    → lookup (insert block s m) j ≡ (if block == j then some s else lookup m j)
unfolding lookup insert
lookup-insert [] block j s = refl
lookup-insert ((b, t) ∷ m) block j s = ground (arith, lookup-insert m block j s)

pub lookup-remove :
    (m : Entries) (block j : ℕ)
    → IsMap m
    → lookup (remove block m) j ≡ (if block == j then none else lookup m j)
unfolding lookup remove
lookup-remove [] block j h = ground arith
lookup-remove ((b, t) ∷ m) block j h = elim (Bool-cases (b == block)) [
  | inl same ↦ rw same (ground arith)
  | inr other ↦ rw other (ground (arith, lookup-remove m block j))
]

other_way : (b block : ℕ) → (b == block) ≡ false → (block == b) ≡ false
other_way b block h = ground arith

pub insert-IsMap : (m : Entries) (block : ℕ) (s : Snapshot) → IsMap m → IsMap (insert block s m)
unfolding insert lookup
insert-IsMap [] block s h = (refl, tt)
insert-IsMap ((b, t) ∷ m) block s h = elim (Bool-cases (b == block)) [
  | inl same ↦ rw same (ap (λ k. lookup m k) (sym ((==_iff b block).0 same)) ∙ h.0, h.1)
  | inr other ↦
      rw other
        (lookup-insert m block b s ∙ rw (other_way b block other) h.0, insert-IsMap m block s h.1)
]

pub remove-IsMap : (m : Entries) (block : ℕ) → IsMap m → IsMap (remove block m)
unfolding remove
remove-IsMap [] block h = tt
remove-IsMap ((b, t) ∷ m) block h = elim (Bool-cases (b == block)) [
  | inl same ↦ rw same h.1
  | inr other ↦
      rw other
        (lookup-remove m block b h.1 ∙ rw (other_way b block other) h.0, remove-IsMap m block h.1)
]

pub length-insert :
    (m : Entries) (block : ℕ) (s : Snapshot) → length (insert block s m) ≤ length m + 1
unfolding insert
length-insert [] block s = omega arith
length-insert ((b, t) ∷ m) block s = ground (arith, length-insert m block s)

pub length-remove :
    (m : Entries) (block : ℕ) (s : Snapshot)
    → lookup m block ≡ some s
    → length (remove block m) + 1 ≡ length m
unfolding lookup remove
length-remove [] block s h = cc
length-remove ((b, t) ∷ m) block s h = ground (arith, length-remove m block s)

-- a block above all of the map is a new entry
pub length-insert_new :
    (m : Entries) (block : ℕ) (s : Snapshot)
    → lookup m block ≡ none
    → length (insert block s m) ≡ length m + 1
unfolding insert lookup
length-insert_new [] block s h = omega arith
length-insert_new ((b, t) ∷ m) block s h = ground (arith, length-insert_new m block s)

-- a block of the map is replaced
pub length-insert_old :
    (m : Entries) (block : ℕ) (s t : Snapshot)
    → lookup m block ≡ some t
    → length (insert block s m) ≡ length m
unfolding insert lookup
length-insert_old [] block s t h = cc
length-insert_old ((b, u) ∷ m) block s t h = elim (Bool-cases (b == block)) [
  | inl same ↦ rw same refl
  | inr other ↦ rw other (omega (arith, length-insert_old m block s t (rw other at h)))
]

pub length-insert_pos : (m : Entries) (block : ℕ) (s : Snapshot) → 0 < length (insert block s m)
unfolding insert
length-insert_pos [] block s = omega arith
length-insert_pos ((b, t) ∷ m) block s = ground arith

module _ {ℓ} (P : ℕ → Type ℓ) where
  pub insert-AllKeys :
      (m : Entries) (block : ℕ) (s : Snapshot)
      → P block
      → AllKeys P m
      → AllKeys P (insert block s m)
  unfolding insert
  insert-AllKeys [] block s p h = (p, tt)
  insert-AllKeys ((b, t) ∷ m) block s p h = elim (Bool-cases (b == block)) [
    | inl same ↦ rw same (p, h.1)
    | inr other ↦ rw other (h.0, insert-AllKeys m block s p h.1)
  ]

  pub remove-AllKeys : (m : Entries) (block : ℕ) → AllKeys P m → AllKeys P (remove block m)
  unfolding remove
  remove-AllKeys [] block h = tt
  remove-AllKeys ((b, t) ∷ m) block h = elim (Bool-cases (b == block)) [
    | inl same ↦ rw same h.1
    | inr other ↦ rw other (h.0, remove-AllKeys m block h.1)
  ]

  -- what holds of all keys holds of a key that is found
  pub AllKeys-lookup :
      (m : Entries) (j : ℕ) (s : Snapshot) → AllKeys P m → lookup m j ≡ some s → P j
  unfolding lookup
  AllKeys-lookup [] j s h e = cc
  AllKeys-lookup ((b, t) ∷ m) j s h e = elim (Bool-cases (b == j)) [
    | inl same ↦ subst P ((==_iff b j).0 same) h.0
    | inr other ↦ AllKeys-lookup m j s h.1 (rw other at e)
  ]

pub AllKeys-map {ℓ κ} :
    (P : ℕ → Type ℓ) (Q : ℕ → Type κ) (m : Entries)
    → ((j : ℕ) → P j → Q j)
    → AllKeys P m
    → AllKeys Q m
AllKeys-map P Q [] f h = tt
AllKeys-map P Q ((b, s) ∷ m) f h = (f b h.0, AllKeys-map P Q m f h.1)

lookup_cons :
    (b j : ℕ) (t : Snapshot) (m : Entries) (s : Snapshot)
    → lookup m j ≡ some s
    → (u : Snapshot) × (lookup ((b, t) ∷ m) j ≡ some u)
unfolding lookup
lookup_cons b j t m s e = elim (Bool-cases (b == j)) [
  | inl same ↦ (t, rw same)
  | inr other ↦ (s, rw other e)
]

lookup_head :
    (b j : ℕ) (t : Snapshot) (m : Entries)
    → j ≡ b
    → (u : Snapshot) × (lookup ((b, t) ∷ m) j ≡ some u)
unfolding lookup
lookup_head b j t m e = (t, ground arith)

-- The loop of `pruneOldest` ends at its start or at a key of the map.
least_below-found :
    (n : ℕ) (m : Entries)
    → (least_below n m ≡ n) ⊎ ((s : Snapshot) × (lookup m (least_below n m) ≡ some s))
unfolding least_below
least_below-found n [] = inl refl
least_below-found n ((b, t) ∷ m) = elim (Bool-cases (ltb b n)) [
  | inl less ↦ rw less (elim (least_below-found b m) [
    | inl e ↦ inr (lookup_head b (least_below b m) t m e)
    | inr (s, e) ↦ inr (lookup_cons b (least_below b m) t m s e)
  ])
  | inr kept ↦ rw kept (elim (least_below-found n m) [
    | inl e ↦ inl e
    | inr (s, e) ↦ inr (lookup_cons b (least_below n m) t m s e)
  ])
]

-- Where the start bounds all keys, and there is one, it ends at a key.
pub least_below-present :
    (n : ℕ) (m : Entries)
    → AllKeys (λ b. b ≤ n) m
    → 0 < length m
    → (s : Snapshot) × (lookup m (least_below n m) ≡ some s)
unfolding least_below
least_below-present n [] h pos = absurd (omega arith)
least_below-present n ((b, t) ∷ m) h pos = elim (least_below-found (if ltb b n then b else n) m) [
  | inl e ↦ lookup_head b _ t m (e ∙ ground arith)
  | inr (s, e) ↦ lookup_cons b _ t m s e
]

pub least_below-le : (n : ℕ) (m : Entries) → least_below n m ≤ n
unfolding least_below
least_below-le n [] = omega arith
least_below-le n ((b, t) ∷ m) = ground (arith, least_below-le (if ltb b n then b else n) m)

pub least_below-AllKeys : (n : ℕ) (m : Entries) → AllKeys (λ b. least_below n m ≤ b) m
unfolding least_below
least_below-AllKeys n [] = tt
least_below-AllKeys n ((b, t) ∷ m) = (
  ground (arith, least_below-le (if ltb b n then b else n) m),
  least_below-AllKeys (if ltb b n then b else n) m,
)
