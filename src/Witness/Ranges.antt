-- ===== src/Witness/Ranges.antt =====
-- state.go: `AllStatesZero` against `GetState`.
use verkle_trie.Prelude.{
  ◌≡◌, ◌↔◌, refl, ◌∙◌, sym, ap, Bool, true, false, not, ◌&&◌, Option, none, some, [], ◌∷◌, Bytes,
  bytes_equal, bytes_equal-eq, bytes_equal_refl, bytes_le, Bool-cases, inl, inr, if◌then◌else◌,
  zeros, subst,
}
use mathlib.Core.Option.{some-injective}
use verkle_trie.Witness.{
  Amounts, Storage, Proof, lookup, get_state, all_states_zero, zero_between, tri_true, tri_false,
  value_or_zero,
}

-- each key is in the map once
unfoldable pub IsMap : Storage → Type 0
IsMap [] = Unit
IsMap ((k, v) ∷ storage) = (lookup storage k ≡ none) × IsMap storage

abbrev pub is_between : Bytes → Bytes → Bytes → Bool
is_between from to key = bytes_le from key && bytes_le key to

-- the found values of the range are zero
abbrev pub AreZero : Storage → Bytes → Bytes → Type 0
AreZero storage from to =
    (k v : Bytes) → lookup storage k ≡ some v → is_between from to k ≡ true → v ≡ zeros 32

head_lookup : (k v : Bytes) (storage : Storage) → lookup ((k, v) ∷ storage) k ≡ some v
unfolding lookup
head_lookup k v storage = rw (bytes_equal_refl k) refl

tail_lookup :
    (k v : Bytes) (storage : Storage) (k' v' : Bytes)
    → lookup storage k ≡ none
    → lookup storage k' ≡ some v'
    → lookup ((k, v) ∷ storage) k' ≡ some v'
unfolding lookup
tail_lookup k v storage k' v' once e = elim (Bool-cases (bytes_equal k k')) [
  | inl same ↦
      let eq = bytes_equal-eq k k' same in
      let missing : lookup storage k' ≡ none = ap (lookup storage) (sym eq) ∙ once in cc
  | inr other ↦ rw other e
]

nothing_found : (k v : Bytes) → lookup [] k ≡ some v → v ≡ zeros 32
unfolding lookup
nothing_found k v h = cc

answers : (b : Bool) → (if b then tri_true else tri_false) ≡ tri_true → b ≡ true
answers true h = refl
answers false h = cc

found_value : (o : Option Bytes) (v : Bytes) → value_or_zero o ≡ (v, true) → o ≡ some v
found_value none v h = let b : false ≡ true = ap (λ r. r.1) h in cc
found_value (some w) v h = let e : w ≡ v = ap (λ r. r.0) h in ap some e

-- the first entry and the others
cons-AreZero :
    (key value : Bytes) (storage : Storage) (from to : Bytes)
    → (is_between from to key ≡ true → value ≡ zeros 32)
    → AreZero storage from to
    → AreZero ((key, value) ∷ storage) from to
unfolding lookup
cons-AreZero key value storage from to head tail k v e inside =
    elim (Bool-cases (bytes_equal key k)) [
      | inl same ↦
          let eq = bytes_equal-eq key k same in
          let found : some value ≡ some v =
            subst (λ b. (if b then some value else lookup storage k) ≡ some v) same e in
          sym (some-injective value v found)
          ∙ head (subst (λ x. is_between from to x ≡ true) (sym eq) inside)
      | inr other ↦
          tail k v (subst (λ b. (if b then some value else lookup storage k) ≡ some v) other e)
            inside
    ]

round_iff :
    (a b z r : Bool)
    → ((if a && b && not z then false else r) ≡ true) ↔ (((a && b) ≡ true → z ≡ true) × (r ≡ true))
round_iff true true true r = (λ e. (λ h. refl, e), λ h. h.1)
round_iff true true false r = (λ e. cc, λ h. let z = h.0 refl in cc)
round_iff true false z r = (λ e. (λ h. cc, e), λ h. h.1)
round_iff false b z r = (λ e. (λ h. cc, e), λ h. h.1)

zero_between_iff :
    (storage : Storage) (from to : Bytes)
    → IsMap storage
    → (zero_between storage from to ≡ true) ↔ AreZero storage from to
unfolding zero_between IsMap
zero_between_iff [] from to m = (λ e k v h inside. nothing_found k v h, λ h. refl)
zero_between_iff ((key, value) ∷ storage) from to m =
    let (to_tail, from_tail) = zero_between_iff storage from to m.1 in
    let (split, join) =
      round_iff (bytes_le from key) (bytes_le key to) (bytes_equal value (zeros 32))
        (zero_between storage from to) in
    (
      λ e.
          let (head, tail) = split e in
          cons-AreZero key value storage from to
            (λ inside. bytes_equal-eq value (zeros 32) (head inside)) (to_tail tail),
      λ h. join (
        λ inside.
            let e = h key value (head_lookup key value storage) inside in
            subst (λ w. bytes_equal w (zeros 32) ≡ true) (sym e) (bytes_equal_refl (zeros 32)),
        from_tail (λ k v e inside. h k v (tail_lookup key value storage k v m.0 e) inside),
      ),
    )

module _ {amounts : Amounts} where
  -- On the root and the address of a proof that has each key once, `AllStatesZero` answers true
  -- exactly if each key of the range for which `GetState` finds a value has the value zero.
  pub all_states_zero_iff :
      (p : Proof amounts) (from to : Bytes)
      → IsMap p.storage
      → (all_states_zero amounts p p.root_hash p.address from to ≡ tri_true) ↔ (
          (k v : Bytes)
          → get_state amounts p p.root_hash p.address k ≡ (v, true)
          → is_between from to k ≡ true
          → v ≡ zeros 32)
  unfolding all_states_zero get_state
  all_states_zero_iff p from to m =
      let root = bytes_equal_refl p.root_hash in
      let address = bytes_equal_refl p.address in
      let (forth, back) = zero_between_iff p.storage from to m in
      rw (root, address)
        (
          λ e k v found inside.
              forth (answers _ e) k v (found_value (lookup p.storage k) v found) inside,
          λ h. let z = back (λ k v e inside. h k v (rw e refl) inside) in rw z refl,
        )
