-- ===== src/Code/Chunks.antt =====
-- code.go: what the chunks of `splitCode` hold.
use verkle_trie.Prelude.{
  All, length-copy, ℕ, zero, suc, ◌+◌, ◌*◌, ◌/◌, ◌≤◌, ◌<◌, ◌≡◌, ◌⊎◌, refl, ◌∙◌, sym, ap, Bool, true,
  false, not, ◌&&◌, ltb, lt→ltb, some, Bool-cases, inl, inr, List, [], ◌∷◌, Bytes, length,
  get_elem?, get_or, drop, copy, zeros, arith, length-drop, drop-drop,
}
use mathlib.Core.Bool.{false≢true}
use native.Mathlib.Nat.{add-zero}
use verkle_trie.Code.{leading_data, chunks_from, split_code, is_code_of}
use verkle_trie.Code.Instructions.{Reaches, is_code_of_iff, length-is_code_of}

-- `d` is the length of the run of unmarked bytes from `j`, cut off after `rounds`
record Leads (rounds : ℕ) (is_code : List Bool) (j d : ℕ) : Type 0 where
  within : d ≤ rounds
  unmarked : (k : ℕ) → k < d → get_or is_code (j + k) false ≡ false
  stops : d < rounds → j + d < length is_code → get_or is_code (j + d) false ≡ true

Nat-cases : (k : ℕ) → (k ≡ 0) ⊎ ((m : ℕ) × (k ≡ suc m))
Nat-cases zero = inl refl
Nat-cases (suc m) = inr (m, refl)

shift : (j m : ℕ) → j + suc m ≡ j + 1 + m
shift j m = omega arith

first_marked :
    (is_code : List Bool) (j : ℕ)
    → j < length is_code
    → (ltb j (length is_code) && not (get_or is_code j false)) ≡ false
    → get_or is_code j false ≡ true
first_marked is_code j h done = ground (arith, lt→ltb j (length is_code) h)

leading_data-Leads :
    (rounds : ℕ) (is_code : List Bool) (j : ℕ)
    → Leads rounds is_code j (leading_data rounds is_code j)
unfolding leading_data
leading_data-Leads zero is_code j = record {
  within = omega arith;
  unmarked = λ k h. absurd (omega arith);
  stops = λ h. absurd (omega arith);
}
leading_data-Leads (suc rounds) is_code j =
    let rest = leading_data-Leads rounds is_code (j + 1) in
    elim (Bool-cases (ltb j (length is_code) && not (get_or is_code j false))) [
      | inl more ↦ rw more (record {
        within = omega (arith, rest.within);
        unmarked = λ k h. elim (Nat-cases k) [
          | inl z ↦ rw (z, add-zero) (ground arith)
          | inr (m, e) ↦ rw (e, shift j m) (rest.unmarked m (omega arith))
        ];
        stops = λ h below.
            rw (shift j (leading_data rounds is_code (j + 1)))
              (rest.stops (omega arith) (omega arith));
      })
      | inr done ↦ rw done (record {
        within = omega arith;
        unmarked = λ k h. absurd (omega arith);
        stops = λ h below. rw add-zero (first_marked is_code j (omega arith) done);
      })
    ]

get_elem?-chunks_from :
    (n fuel : ℕ) (is_code : List Bool) (i : ℕ) (code : Bytes)
    → 31 * n < length code
    → length code ≤ fuel
    → get_elem? (chunks_from fuel is_code i code) n
      ≡ some (leading_data 31 is_code (31 * (i + n)) ∷ copy (zeros 31) (drop (31 * n) code))
unfolding chunks_from
get_elem?-chunks_from n fuel is_code i [] h enough = absurd (omega arith)
get_elem?-chunks_from n zero is_code i (b ∷ code) h enough = absurd (omega arith)
get_elem?-chunks_from zero (suc fuel) is_code i (b ∷ code) h enough =
    ap (λ m. some (leading_data 31 is_code (31 * m) ∷ copy (zeros 31) (b ∷ code))) (omega arith)
get_elem?-chunks_from (suc n) (suc fuel) is_code i (b ∷ code) h enough =
    let rest = drop 31 (b ∷ code) in
    get_elem?-chunks_from n fuel is_code (i + 1) rest (omega (arith, length-drop 31 (b ∷ code)))
      (omega (arith, length-drop 31 (b ∷ code)))
    ∙ ap (λ m. some (leading_data 31 is_code (31 * m) ∷ copy (zeros 31) (drop (31 * n) rest)))
        (omega arith)
    ∙ ap (λ t. some (leading_data 31 is_code (31 * (i + suc n)) ∷ copy (zeros 31) t))
        (drop-drop (31 * n) 31 (b ∷ code) ∙ ap (λ m. drop m (b ∷ code)) (omega arith))

length-chunks_from :
    (fuel : ℕ) (is_code : List Bool) (i : ℕ) (code : Bytes)
    → length code ≤ fuel
    → length (chunks_from fuel is_code i code) ≡ (length code + 30) / 31
unfolding chunks_from
length-chunks_from zero is_code i [] enough = omega arith
length-chunks_from (suc fuel) is_code i [] enough = omega arith
length-chunks_from zero is_code i (b ∷ code) enough = absurd (omega arith)
length-chunks_from (suc fuel) is_code i (b ∷ code) enough = omega (
  arith,
  length-drop 31 (b ∷ code),
  length-chunks_from fuel is_code (i + 1) (drop 31 (b ∷ code))
      (omega (arith, length-drop 31 (b ∷ code))),
)

-- The number of chunks of a code is its length divided by 31, rounded up.
pub length-split_code : (code : Bytes) → length (split_code code) ≡ (length code + 30) / 31
unfolding split_code
length-split_code code = length-chunks_from (length code) (is_code_of code) 0 code (omega arith)

-- The chunk `n` of a code with a byte at `31 * n` is a byte `d` and the 31 bytes of code from there,
-- with zeros behind the end. `d` is at most 31, and is the number of bytes from `31 * n` on that are
-- no instruction starts, before the first that is one: exactly so also where the data of a push runs
-- past the end of the code.
pub split_code-chunk :
    (code : Bytes) (n : ℕ)
    → 31 * n < length code
    → (d : ℕ) × (get_elem? (split_code code) n ≡ some (d ∷ copy (zeros 31) (drop (31 * n) code)))
      × (d ≤ 31)
      × ((k : ℕ) → k < d → ¬ Reaches code 0 (31 * n + k))
      × (d < 31 → Reaches code 0 (31 * n + d))
unfolding split_code
split_code-chunk code n h =
    let is_code = is_code_of code in
    let d = leading_data 31 is_code (31 * n) in
    let run = leading_data-Leads 31 is_code (31 * n) in
    (
      d,
      get_elem?-chunks_from n (length code) is_code 0 code h (omega arith)
          ∙ ap (λ m. some (leading_data 31 is_code (31 * m) ∷ copy (zeros 31) (drop (31 * n) code)))
              (omega arith),
      run.within,
      λ k hk reach. false≢true (
          sym (run.unmarked k hk)
          ∙ (is_code_of_iff code (31 * n + k) (omega (arith, run.within))).1 reach),
      λ hd.
          (is_code_of_iff code (31 * n + d) (omega arith)).0
            (run.stops hd (omega (arith, length-is_code_of code))),
    )

lengths-chunks_from :
    (fuel : ℕ) (is_code : List Bool) (i : ℕ) (code : Bytes)
    → All (λ c. length c ≡ 32) (chunks_from fuel is_code i code)
unfolding chunks_from
lengths-chunks_from zero is_code i code = tt
lengths-chunks_from (suc fuel) is_code i [] = tt
lengths-chunks_from (suc fuel) is_code i (b ∷ code) = (
  ap suc (length-copy (zeros 31) (b ∷ code)),
  lengths-chunks_from fuel is_code (i + 1) (drop 31 (b ∷ code)),
)

-- every chunk has 32 bytes
pub split_code-lengths : (code : Bytes) → All (λ c. length c ≡ 32) (split_code code)
unfolding split_code
split_code-lengths code = lengths-chunks_from (length code) (is_code_of code) 0 code
