-- ===== src/Commit/Binding.antt =====
-- commit.go: what equal commitments say of the vectors, where commitments and their scalars are only
-- computationally binding: two vectors agree, or they exhibit a break of the scheme.
use verkle_trie.Prelude.{
  ℕ, ◌<◌, ◌≡◌, ◌≢◌, ◌⊎◌, inl, inr, ◌∙◌, sym, ap, true, false, List, length, length-tabulate,
  tabulate, get_or, Bool-cases,
}
use verkle_trie.Commit
use verkle_trie.Commit.{Ipa, Value, Commitment}
use verkle_trie.Commit.Opening.{get_or-tabulate}
use verkle_trie.Commit.Encoding.{IsStandard}

-- What nobody is able to find: two vectors of one commitment, two commitments of one scalar, or a
-- vector other than zero whose commitment has the scalar 0, or one whose commitment has the scalar 1.
pub data Break (ipa : Ipa) : Type 0 where
  commit_collision :
      (xs ys : List ipa.Fr)
      → length xs ≡ 256
      → length ys ≡ 256
      → xs ≢ ys
      → ipa.equal (ipa.commit xs) (ipa.commit ys) ≡ true
      → Break ipa
  scalar_collision :
      (xs ys : List ipa.Fr)
      → length xs ≡ 256
      → length ys ≡ 256
      → ipa.equal (ipa.commit xs) (ipa.commit ys) ≡ false
      → ipa.map_to_scalar_field (ipa.commit xs) ≡ ipa.map_to_scalar_field (ipa.commit ys)
      → Break ipa
  zero_scalar :
      (xs : List ipa.Fr)
      → length xs ≡ 256
      → xs ≢ tabulate 256 (λ _. ipa.zero_fr)
      → ipa.map_to_scalar_field (ipa.commit xs) ≡ ipa.zero_fr
      → Break ipa
  one_scalar :
      (xs : List ipa.Fr)
      → length xs ≡ 256
      → ipa.map_to_scalar_field (ipa.commit xs) ≡ ipa.set_uint64 1
      → Break ipa

-- the first break, or the next step
pub and_then : {ipa : Ipa} {A B : Type 0} → Break ipa ⊎ A → (A → Break ipa ⊎ B) → Break ipa ⊎ B
and_then (inl b) f = inl b
and_then (inr a) f = f a

module _ {ipa : Ipa} (standard : IsStandard ipa) where
  abbrev pub scalars : (ℕ → Value ipa) → List ipa.Fr
  scalars f = tabulate 256 (λ i. (f i).scalar)

  scalars-apart :
      (f g : ℕ → Value ipa) (q : ℕ) → q < 256 → (f q).scalar ≢ (g q).scalar → scalars f ≢ scalars g
  scalars-apart f g q small apart e = apart (
      sym (get_or-tabulate 256 (λ i. (f i).scalar) q ipa.zero_fr small)
      ∙ ap (λ t. get_or t q ipa.zero_fr) e
      ∙ get_or-tabulate 256 (λ i. (g i).scalar) q ipa.zero_fr small)

  -- Vectors of one commitment agree at each position.
  pub equal-at :
      (f g : ℕ → Value ipa) (q : ℕ)
      → q < 256
      → Commit.equal ipa (Commit.commit ipa f) (Commit.commit ipa g) ≡ true
      → Break ipa ⊎ (f q ≡ g q)
  unfolding Commit.equal Commit.commit
  equal-at f g q small e = elim (standard.same_fr (f q).scalar (g q).scalar) [
    | yes same ↦ inr (ap (λ x. let v : Value ipa = record { scalar = x } in v) same)
    | no apart ↦ inl (
        commit_collision (scalars f) (scalars g) (length-tabulate 256 _) (length-tabulate 256 _)
          (scalars-apart f g q small apart) e)
  ]

  -- So do vectors of one scalar.
  pub to_value-at :
      (f g : ℕ → Value ipa) (q : ℕ)
      → q < 256
      → Commit.to_value ipa (Commit.commit ipa f) ≡ Commit.to_value ipa (Commit.commit ipa g)
      → Break ipa ⊎ (f q ≡ g q)
  unfolding Commit.to_value Commit.commit Commit.equal
  to_value-at f g q small e =
      elim (Bool-cases (ipa.equal (ipa.commit (scalars f)) (ipa.commit (scalars g)))) [
        | inl same ↦ equal-at f g q small same
        | inr apart ↦ inl (
            scalar_collision (scalars f) (scalars g) (length-tabulate 256 _) (length-tabulate 256 _)
              apart (ap (λ (v : Value ipa). v.scalar) e))
      ]

  -- A vector of the scalar 0 is zero.
  pub zero-at :
      (f : ℕ → Value ipa) (q : ℕ)
      → q < 256
      → Commit.to_value ipa (Commit.commit ipa f) ≡ Commit.zero_value ipa
      → Break ipa ⊎ (f q ≡ Commit.zero_value ipa)
  unfolding Commit.to_value Commit.commit
  zero-at f q small e = elim (standard.same_fr (f q).scalar ipa.zero_fr) [
    | yes same ↦ inr (ap (λ x. let v : Value ipa = record { scalar = x } in v) same)
    | no apart ↦ inl (
        zero_scalar (scalars f) (length-tabulate 256 _)
          (scalars-apart f (λ _. Commit.zero_value ipa) q small apart)
          (ap (λ (v : Value ipa). v.scalar) e))
  ]

  -- No commitment has the scalar 1.
  pub one-break :
      {A : Type 0} (f : ℕ → Value ipa)
      → Commit.to_value ipa (Commit.commit ipa f) ≡ Commit.new_value ipa 1
      → Break ipa ⊎ A
  unfolding Commit.to_value Commit.commit Commit.new_value
  one-break f e =
      inl (one_scalar (scalars f) (length-tabulate 256 _) (ap (λ (v : Value ipa). v.scalar) e))
