-- ===== src/Commit/Update.antt =====
-- commit.go: `Update` against a fresh `Commit`, from the homomorphism that its comment names.
use verkle_trie.Prelude.{
  ℕ, zero, suc, ◌≡◌, refl, ◌∙◌, ap, fun_ext, List, [], ◌∷◌, tabulate, update, ◌==◌, ==_iff,
  Bool-cases, inl, inr,
}
use verkle_trie.Commit.{Ipa, Value, Commitment, vector_size, commit, update_commitment}

-- two vectors, position by position
unfoldable pub zip_with : {A : Type 0} → (A → A → A) → List A → List A → List A
zip_with f [] ys = []
zip_with f (x ∷ xs) [] = []
zip_with f (x ∷ xs) (y ∷ ys) = f x y ∷ zip_with f xs ys

-- `Commit(A + B) = Commit(A) + Commit(B)`, with the addition of the field
pub record IsLinear (ipa : Ipa) : Type 0 where
  pub add_fr : ipa.Fr → ipa.Fr → ipa.Fr
  pub commit-add :
      (xs ys : List ipa.Fr)
      → ipa.add (ipa.commit xs) (ipa.commit ys) ≡ ipa.commit (zip_with add_fr xs ys)
  pub add-sub : (old new : ipa.Fr) → add_fr old (ipa.sub new old) ≡ new
  pub add-zero : (x : ipa.Fr) → add_fr x ipa.zero_fr ≡ x

zip_with-tabulate :
    {A : Type 0} (op : A → A → A) (n : ℕ) (f g : ℕ → A)
    → zip_with op (tabulate n f) (tabulate n g) ≡ tabulate n (λ i. op (f i) (g i))
unfolding tabulate zip_with
zip_with-tabulate op zero f g = refl
zip_with-tabulate op (suc n) f g =
    ap (λ t. op (f 0) (g 0) ∷ t) (zip_with-tabulate op n (λ i. f (suc i)) (λ i. g (suc i)))

module _ {ipa : Ipa} (linear : IsLinear ipa) where
  -- `Update` of the commitment of a vector, with the value that it has at the position, is the
  -- commitment of the vector with the new value there.
  pub update_commitment-commit :
      (values : ℕ → Value ipa) (position : ℕ) (new : Value ipa)
      → update_commitment ipa (commit ipa values) position (values position) new
        ≡ commit ipa (update values position new)
  unfolding update_commitment commit
  update_commitment-commit values position new =
      let old = λ (i : ℕ). (values i).scalar in
      let zero_value : Value ipa = record { scalar = ipa.zero_fr } in
      let diff = λ (i : ℕ).
        (update (λ _. zero_value) position
          (record { scalar = ipa.sub new.scalar (values position).scalar }) i).scalar in
      ap (λ (e : ipa.Element). let c : Commitment ipa = record { point = e } in c)
        (linear.commit-add (tabulate vector_size old) (tabulate vector_size diff)
          ∙ ap ipa.commit (
              zip_with-tabulate linear.add_fr vector_size old diff
              ∙ ap (tabulate vector_size) (
                  fun_ext λ i. elim (Bool-cases (i == position)) [
                    | inl same ↦
                        rw (same, (==_iff i position).0 same)
                          (linear.add-sub (values position).scalar new.scalar)
                    | inr other ↦ rw other (linear.add-zero (values i).scalar)
                  ])))
