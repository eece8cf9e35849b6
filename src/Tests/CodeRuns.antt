-- ===== src/Tests/CodeRuns.antt =====
-- Runs of code.go, from its tests.
use verkle_trie.Prelude.{
  ℕ, ◌+◌, ◌*◌, ◌≤◌, ◌<◌, ◌≡◌, ◌↔◌, refl, true, false, some, [], ◌∷◌, ◌++◌, Bytes, length, get_elem?,
  get_or, drop, copy, zeros, replicate, arith,
}
use verkle_trie.Code.{split_code, merge, is_code_of}
use verkle_trie.Code.RoundTrip.{merge-split_code}
use verkle_trie.Code.Instructions.{Reaches, is_code_of_iff}
use verkle_trie.Code.Chunks.{split_code-chunk}

-- a PUSH32 as the last byte of the first chunk, with one byte behind it
abbrev truncated : Bytes
truncated = 3 ∷ (replicate 29 0 ++ 0x7f ∷ 5 ∷ [])

split_truncated :
    split_code truncated ≡ (0 ∷ 3 ∷ (replicate 29 0 ++ 0x7f ∷ [])) ∷ (31 ∷ 5 ∷ replicate 30 0) ∷ []
unfolding split_code
split_truncated = refl

merge-truncated : merge (split_code truncated) 32 ≡ truncated
unfolding split_code merge
merge-truncated = refl

split_empty : split_code [] ≡ []
unfolding split_code
split_empty = refl

merge-split_code_example :
    merge (split_code truncated ++ zeros 32 ∷ []) (length truncated) ≡ truncated
merge-split_code_example = merge-split_code truncated (zeros 32 ∷ [])

is_code_of_iff_example : (get_or (is_code_of truncated) 61 false ≡ true) ↔ Reaches truncated 0 61
is_code_of_iff_example = is_code_of_iff truncated 61 (omega arith)

split_code-chunk_example :
    (d : ℕ) × (get_elem? (split_code truncated) 1
      ≡ some (d ∷ copy (zeros 31) (drop (31 * 1) truncated)))
    × (d ≤ 31)
    × ((k : ℕ) → k < d → ¬ Reaches truncated 0 (31 * 1 + k))
    × (d < 31 → Reaches truncated 0 (31 * 1 + d))
split_code-chunk_example = split_code-chunk truncated 1 (omega arith)
