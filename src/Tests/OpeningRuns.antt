-- ===== src/Tests/OpeningRuns.antt =====
-- Openings and updates over vectors of bits, whose commitment is the vector itself.
use verkle_trie.Prelude.{
  ℕ, ◌%◌, ◌≡◌, refl, ap, Bool, true, false, not, ◌&&◌, Option, none, List, [], ◌∷◌, Bytes, arith,
  ◌==◌, update,
}
use verkle_trie.Commit
use verkle_trie.Commit.{Ipa, Value, Commitment, update_commitment}
use verkle_trie.Commit.Update.{IsLinear, zip_with}
use verkle_trie.Commit.Opening.{Prover, IsComplete, open_at, verify, update_commitment-verify}

abbrev xor : Bool → Bool → Bool
xor false b = b
xor true b = not b

abbrev same_bits : List Bool → List Bool → Bool
same_bits [] [] = true
same_bits [] (y ∷ ys) = false
same_bits (x ∷ xs) [] = false
same_bits (x ∷ xs) (y ∷ ys) = not (xor x y) && same_bits xs ys

same_bits_refl : (xs : List Bool) → same_bits xs xs ≡ true
same_bits_refl [] = refl
same_bits_refl (true ∷ xs) = same_bits_refl xs
same_bits_refl (false ∷ xs) = same_bits_refl xs

abbrev bits : Ipa
bits = record {
  Fr = Bool;
  Element = List Bool;
  zero_fr = false;
  zero_element = [];
  set_uint64 = λ n. n % 2 == 1;
  set_bytes_le = λ bytes. false;
  set_bytes = λ bytes. false;
  bytes = λ b. [];
  bytes_le = λ b. [];
  sub = xor;
  identity = [];
  commit = λ xs. xs;
  add = zip_with xor;
  equal = same_bits;
  is_on_curve = λ xs. true;
  map_to_scalar_field = λ xs. false;
  to_bytes = λ xs. [];
}

add_sub : (old new : Bool) → xor old (xor new old) ≡ new
add_sub true true = refl
add_sub true false = refl
add_sub false true = refl
add_sub false false = refl

add_zero : (b : Bool) → xor b false ≡ b
add_zero true = refl
add_zero false = refl

bits-IsLinear : IsLinear bits
bits-IsLinear = record {
  add_fr = xor;
  commit-add = λ xs ys. refl;
  add-sub = add_sub;
  add-zero = add_zero;
}

-- a proof is the whole vector
abbrev prover : Prover bits
prover = record {
  Transcript = Bytes;
  IpaProof = List Bool;
  Failure = Unit {0};
  new_transcript = λ name. name;
  create_ipa_proof = λ t c elements point. (elements, none);
  check_ipa_proof = λ t c proof point value. (same_bits proof c, none);
}

prover-IsComplete : IsComplete prover
prover-IsComplete = record {
  accepts = λ name elements position h fine.
      ap (λ (b : Bool). let r : Bool × Option (Unit {0}) = (b, none) in r)
        (same_bits_refl elements);
}

abbrev values : ℕ → Value bits
values i = record { scalar = i % 3 == 0 }

abbrev new : Value bits
new = record { scalar = true }

update_commitment-verify_example :
    verify prover
      (open_at prover
        (update_commitment bits (Commit.commit bits values) 4 (values 4) new)
        (update values 4 new)
        4).0
      (update_commitment bits (Commit.commit bits values) 4 (values 4) new)
      4
      new
    ≡ (true, none)
update_commitment-verify_example =
    update_commitment-verify prover prover-IsComplete bits-IsLinear values 4 new 4 (omega arith)
      (unfold open_at in refl)
