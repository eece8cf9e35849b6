-- ===== src/Commit/Opening.antt =====
-- commit/proof.go: openings of a commitment at a position.
use verkle_trie.Prelude.{
  ℕ, zero, suc, ◌<◌, ◌≡◌, refl, ◌∙◌, sym, ap, subst, Bool, true, Option, none, List, [], ◌∷◌, Bytes,
  get_or, tabulate, update, arith, ◌==◌, if◌then◌else◌,
}
use verkle_trie.Commit.{Ipa, Value, Commitment, vector_size, commit, update_commitment}
use verkle_trie.Commit.Update.{IsLinear, update_commitment-commit}

-- What this file calls of go-ipa beside `Ipa`: a transcript of a label, and the two calls for proofs,
-- each with its error.
pub record Prover (ipa : Ipa) : Type 1 where
  pub Transcript : Type 0
  pub IpaProof : Type 0
  pub Failure : Type 0
  pub new_transcript : Bytes → Transcript
  pub create_ipa_proof : Transcript → ipa.Element → List ipa.Fr → ipa.Fr → IpaProof × Option Failure
  pub check_ipa_proof :
      Transcript → ipa.Element → IpaProof → ipa.Fr → ipa.Fr → Bool × Option Failure

-- `"vt"`
abbrev pub label : Bytes
label = b'v' ∷ b't' ∷ []

module _ {ipa : Ipa} (prover : Prover ipa) where
  pub record Opening : Type 0 where
    pub proof : prover.IpaProof

  -- `Open`
  unfoldable pub open_at : Commitment ipa → (ℕ → Value ipa) → ℕ → Opening × Option prover.Failure
  open_at commitment values position =
      let elements = tabulate vector_size (λ i. (values i).scalar) in
      let r =
        prover.create_ipa_proof (prover.new_transcript label) commitment.point elements
          (ipa.set_uint64 position) in
      (record { proof = r.0 }, r.1)

  unfoldable pub verify : Opening → Commitment ipa → ℕ → Value ipa → Bool × Option prover.Failure
  verify o commitment position value =
      prover.check_ipa_proof (prover.new_transcript label) commitment.point o.proof
        (ipa.set_uint64 position) value.scalar

  -- The completeness of the argument: a proof for the commitment of a vector at one of its positions
  -- is accepted, by a transcript of the same label, for the element that stands there.
  pub record IsComplete : Type 0 where
    pub accepts :
        (name : Bytes) (elements : List ipa.Fr) (position : ℕ)
        → position < vector_size
        → let r =
            prover.create_ipa_proof
              (prover.new_transcript name)
              (ipa.commit elements)
              elements
              (ipa.set_uint64 position) in
          r.1 ≡ none
          → prover.check_ipa_proof
              (prover.new_transcript name)
              (ipa.commit elements)
              r.0
              (ipa.set_uint64 position)
              (get_or elements position ipa.zero_fr)
            ≡ (true, none)

pub get_or-tabulate :
    {A : Type 0} (n : ℕ) (f : ℕ → A) (i : ℕ) (d : A) → i < n → get_or (tabulate n f) i d ≡ f i
unfolding tabulate
get_or-tabulate zero f i d h = absurd (omega arith)
get_or-tabulate (suc n) f zero d h = refl
get_or-tabulate (suc n) f (suc i) d h = get_or-tabulate n (λ j. f (suc j)) i d (omega arith)

module _ {ipa : Ipa} (prover : Prover ipa) (complete : IsComplete prover) where
  open_at-verify :
      (values : ℕ → Value ipa) (position : ℕ)
      → position < 256
      → (open_at prover (commit ipa values) values position).1 ≡ none
      → verify prover
          (open_at prover (commit ipa values) values position).0
          (commit ipa values)
          position
          (values position)
        ≡ (true, none)
  unfolding open_at verify commit
  open_at-verify values position h fine =
      let elements = tabulate vector_size (λ i. (values i).scalar) in
      let r =
        prover.create_ipa_proof (prover.new_transcript label) (ipa.commit elements) elements
          (ipa.set_uint64 position) in
      ap
        (λ v.
          prover.check_ipa_proof (prover.new_transcript label) (ipa.commit elements) r.0
            (ipa.set_uint64 position) v)
        (sym (get_or-tabulate vector_size (λ i. (values i).scalar) position ipa.zero_fr h))
      ∙ complete.accepts label elements position h fine

  -- Where commitments are linear and the argument is complete: after `Update` of the commitment of a vector, from the value at the position to a new one, an
  -- opening that `Open` makes of it without an error, from the vector with the new value, is
  -- accepted by `Verify` at each position, for the new value at the changed position and for the old
  -- values at all others.
  pub update_commitment-verify :
      IsLinear ipa
      → (values : ℕ → Value ipa) (changed : ℕ) (new : Value ipa) (position : ℕ) → position < 256
      → let c = update_commitment ipa (commit ipa values) changed (values changed) new in
        let r = open_at prover c (update values changed new) position in
        r.1 ≡ none
        → verify prover r.0 c position (if position == changed then new else values position)
          ≡ (true, none)
  update_commitment-verify linear values changed new position h =
      subst
        (λ c.
          (open_at prover c (update values changed new) position).1 ≡ none
          → verify prover (open_at prover c (update values changed new) position).0 c position
              (update values changed new position)
            ≡ (true, none))
        (sym (update_commitment-commit linear values changed new))
        (open_at-verify (update values changed new) position h)
