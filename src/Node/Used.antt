-- ===== src/Node/Used.antt =====
-- The bitmap of a leaf of nodes.go: which suffixes were written.
use verkle_trie.Prelude.{
  ℕ, zero, suc, ◌+◌, ◌/◌, ◌%◌, ◌^◌, ◌<◌, ◌≤◌, ◌≡◌, refl, ap, Bool, true, false, not, ◌&&◌, ◌||◌,
  Bytes, arith, bit_and, bit_or, ltb, ltb→lt, ◌==◌, ==_iff, Bool-cases, inl, inr, if◌then◌else◌,
}
use verkle_trie.Commit.{Ipa}
use verkle_trie.Node.{Leaf, new_leaf, leaf_set, is_used}

-- The values `lo, lo + 1, …` of a byte or of a bit position are few: a test is run at each of them.
survey : (ℕ → Bool) → ℕ → ℕ → Bool
survey test lo zero = true
survey test lo (suc count) = test lo && survey test (lo + 1) count

survey_finds :
    (test : ℕ → Bool) (lo count x : ℕ)
    → lo ≤ x
    → x < lo + count
    → survey test lo count ≡ true
    → test x ≡ true
unfolding survey
survey_finds test lo zero x low high h = absurd (omega arith)
survey_finds test lo (suc count) x low high h = elim (Bool-cases (x == lo)) [
  | inl here ↦ ground (arith, ap test ((==_iff x lo).0 here))
  | inr beyond ↦
      survey_finds test (lo + 1) count x (ground arith) (omega arith) (ground (arith, test lo))
]

-- setting bit `i` of a byte sets that bit, leaves the others, and leaves a byte
abbrev bit_law : ℕ → ℕ → ℕ → Bool
bit_law b i j =
    (if bit_and (bit_or b (2 ^ i)) (2 ^ j) == 0
      then not (j == i) && bit_and b (2 ^ j) == 0
      else (j == i || not (bit_and b (2 ^ j) == 0)))
    && ltb (bit_or b (2 ^ i)) 256

bit_table : survey (λ b. survey (λ i. survey (bit_law b i) 0 8) 0 8) 0 256 ≡ true
unfolding survey
bit_table = refl

bit_law-true : (b i j : ℕ) → b < 256 → i < 8 → j < 8 → bit_law b i j ≡ true
bit_law-true b i j hb hi hj =
    let of_byte = survey_finds _ 0 256 b (omega arith) hb bit_table in
    let of_bit = survey_finds (λ i'. survey (bit_law b i') 0 8) 0 8 i (omega arith) hi of_byte in
    survey_finds (bit_law b i) 0 8 j (omega arith) hj of_bit

set_bit-byte : (b i : ℕ) → b < 256 → i < 8 → bit_or b (2 ^ i) < 256
set_bit-byte b i hb hi = ltb→lt _ _ (ground (arith, bit_law-true b i i hb hi hi))

test_bit-set_bit :
    (b i j : ℕ)
    → b < 256
    → i < 8
    → j < 8
    → not (bit_and (bit_or b (2 ^ i)) (2 ^ j) == 0) ≡ (j == i || not (bit_and b (2 ^ j) == 0))
test_bit-set_bit b i j hb hi hj = ground (arith, bit_law-true b i j hb hi hj)

same_group : (t s : ℕ) → t / 8 ≡ s / 8 → (t % 8 == s % 8) ≡ (t == s)
same_group t s e = ground arith

other_group : (t s : ℕ) → (t / 8 == s / 8) ≡ false → (t == s) ≡ false
other_group t s e = ground arith

no_bits : survey (λ j. bit_and 0 (2 ^ j) == 0) 0 8 ≡ true
unfolding survey
no_bits = refl

no_bit : (i : ℕ) → i < 8 → not (bit_and 0 (2 ^ i) == 0) ≡ false
no_bit i h =
    ground (arith, survey_finds (λ j. bit_and 0 (2 ^ j) == 0) 0 8 i (omega arith) h no_bits)

-- A fresh leaf has no used suffix.
pub is_used-new_leaf :
    (ipa : Ipa) (key : Bytes) (suffix : ℕ) → is_used ipa (new_leaf ipa key) suffix ≡ false
unfolding is_used new_leaf
is_used-new_leaf ipa key suffix = no_bit (suffix % 8) (omega arith)

module _ {ipa : Ipa} where
  -- the bitmap holds bytes
  abbrev pub HasBytes : Leaf ipa → Type 0
  HasBytes l = (i : ℕ) → l.used i < 256

  pub leaf_set-HasBytes :
      (l : Leaf ipa) (suffix : ℕ) (value : Bytes)
      → HasBytes l
      → HasBytes (leaf_set ipa l suffix value)
  unfolding leaf_set
  leaf_set-HasBytes l suffix value h i = elim (Bool-cases (i == suffix / 8)) [
    | inl same ↦ rw same (set_bit-byte (l.used (suffix / 8)) (suffix % 8) (h _) (omega arith))
    | inr other ↦ rw other (h i)
  ]

  -- Writing a suffix, whatever the value, marks that suffix and leaves the marks of all others.
  pub is_used-leaf_set :
      (l : Leaf ipa) (suffix t : ℕ) (value : Bytes)
      → HasBytes l
      → is_used ipa (leaf_set ipa l suffix value) t ≡ (t == suffix || is_used ipa l t)
  unfolding is_used leaf_set
  is_used-leaf_set l suffix t value h = elim (Bool-cases (t / 8 == suffix / 8)) [
    | inl same ↦
        let e = (==_iff (t / 8) (suffix / 8)).0 same in
        rw (
          same,
          test_bit-set_bit (l.used (suffix / 8)) (suffix % 8) (t % 8) (h _) (omega arith)
              (omega arith),
          same_group t suffix e,
          e,
        )
    | inr other ↦ rw (other, other_group t suffix other)
  ]
