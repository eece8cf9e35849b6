-- ===== src/Code/RoundTrip.antt =====
-- code.go: `merge` undoes `splitCode`.
use verkle_trie.Prelude.{
  ℕ, zero, suc, ◌+◌, ◌*◌, ◌≤◌, ◌≡◌, refl, ◌∙◌, ap, Bool, List, [], ◌∷◌, ◌++◌, Bytes, length, take,
  drop, copy, zeros, arith, length-copy, length-replicate, length-drop, drop-nil, take-nil,
  take-append-drop,
}
use verkle_trie.Code.{chunks_from, split_code, is_code_of, merge_into, merge, leading_data}

-- nothing is written past the end
merge_into-nil : (chunks : List Bytes) → merge_into [] chunks ≡ []
unfolding merge_into
merge_into-nil [] = refl
merge_into-nil (c ∷ chunks) = rw (take-nil, drop-nil) (merge_into-nil chunks)

-- a full chunk, or the last one behind its padding
take-copy-copy :
    (n : ℕ) (cur code : Bytes)
    → length cur ≡ length code
    → take n (copy cur (copy (zeros n) code)) ≡ take n code
take-copy-copy zero cur code h = refl
take-copy-copy (suc n) [] [] h = refl
take-copy-copy (suc n) [] (b ∷ code) h = absurd (omega arith)
take-copy-copy (suc n) (x ∷ cur) [] h = absurd (omega arith)
take-copy-copy (suc n) (x ∷ cur) (b ∷ code) h =
    ap (λ t. b ∷ t) (take-copy-copy n cur code (omega arith))

merge_into-step :
    {n : ℕ} (cur c : Bytes) (chunks : List Bytes)
    → length (drop 1 c) ≡ n
    → merge_into cur (c ∷ chunks) ≡ take n (copy cur (drop 1 c)) ++ merge_into (drop n cur) chunks
unfolding merge_into
merge_into-step cur c chunks h =
    ap (λ n. take n (copy cur (drop 1 c)) ++ merge_into (drop n cur) chunks) h

merge_into-chunks_from :
    (fuel : ℕ) (is_code : List Bool) (i : ℕ) (code cur : Bytes) (more : List Bytes)
    → length cur ≡ length code
    → length code ≤ fuel
    → merge_into cur (chunks_from fuel is_code i code ++ more) ≡ code
unfolding chunks_from
merge_into-chunks_from fuel is_code i [] (x ∷ cur) more h enough = absurd (omega arith)
merge_into-chunks_from fuel is_code i [] [] more h enough = merge_into-nil _
merge_into-chunks_from zero is_code i (b ∷ code) cur more h enough = absurd (omega arith)
merge_into-chunks_from (suc fuel) is_code i (b ∷ code) cur more h enough =
    let rest = chunks_from fuel is_code (i + 1) (drop 31 (b ∷ code)) ++ more in
    merge_into-step cur (leading_data 31 is_code (31 * i) ∷ copy (zeros 31) (b ∷ code)) rest
      (length-copy (zeros 31) (b ∷ code))
    ∙ ap (λ t. t ++ merge_into (drop 31 cur) rest) (take-copy-copy 31 cur (b ∷ code) h)
    ∙ (ap (λ t. take 31 (b ∷ code) ++ t)
          (merge_into-chunks_from fuel is_code (i + 1) (drop 31 (b ∷ code)) (drop 31 cur) more
            (omega (arith, length-drop 31 cur, length-drop 31 (b ∷ code)))
            (omega (arith, length-drop 31 (b ∷ code))))
        ∙ take-append-drop 31 (b ∷ code))

-- Merging the chunks of a code with the code's length restores it, also where other chunks follow.
pub merge-split_code :
    (code : Bytes) (more : List Bytes) → merge (split_code code ++ more) (length code) ≡ code
unfolding merge split_code
merge-split_code code more =
    merge_into-chunks_from (length code) (is_code_of code) 0 code (zeros (length code)) more
      (length-replicate (length code) 0) (omega arith)
