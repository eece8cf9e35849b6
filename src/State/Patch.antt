-- ===== src/State/Patch.antt =====
-- state.go: ranges of a value, `value[lo:hi]`, before and after `copy(value[lo:hi], src)`.
use verkle_trie.Prelude.{
  take-append_le, drop-append_ge, copy_full, ℕ, zero, suc, ◌-◌, ◌≤◌, ◌≡◌, ◌∙◌, sym, ap, [], ◌∷◌,
  ◌++◌, Bytes, length, take, drop, slice, copy, arith, length-append, length-take, length-drop,
  length-copy, take-take, drop-drop, take-nil, take_all,
}
use verkle_trie.State.{patch}

drop-take : (a b : ℕ) (xs : Bytes) → drop a (take b xs) ≡ slice a b xs
drop-take zero b xs = ap (λ k. take k xs) (omega arith)
drop-take (suc a) zero xs =
    let none_left : 0 ≡ 0 - suc a = omega arith in ap (λ k. take k (drop (suc a) xs)) none_left
drop-take (suc a) (suc b) [] = sym (take-nil (suc b - suc a))
drop-take (suc a) (suc b) (x ∷ xs) = drop-take a b xs ∙ ap (λ k. take k (drop a xs)) (omega arith)

-- The array keeps its length.
pub length-patch :
    (lo hi : ℕ) (src value : Bytes)
    → lo ≤ hi
    → hi ≤ length value
    → length (patch lo hi src value) ≡ length value
length-patch lo hi src value h h' = omega (
  arith,
  length-append (take lo value) (copy (slice lo hi value) src ++ drop hi value),
  length-append (copy (slice lo hi value) src) (drop hi value),
  length-copy (slice lo hi value) src,
  length-take (hi - lo) (drop lo value),
  length-drop lo value,
  length-take lo value,
  length-drop hi value,
)

module _ (lo hi : ℕ) (src value : Bytes) (ordered : lo ≤ hi) (within : hi ≤ length value) where
  abbrev rest : Bytes
  rest = copy (slice lo hi value) src ++ drop hi value

  length-before : length (take lo value) ≡ lo
  length-before = omega (arith, length-take lo value)

  length-middle : length (copy (slice lo hi value) src) ≡ hi - lo
  length-middle = omega (
    arith,
    length-copy (slice lo hi value) src,
    length-take (hi - lo) (drop lo value),
    length-drop lo value,
  )

  drop-patch : (a : ℕ) → lo ≤ a → drop a (patch lo hi src value) ≡ drop (a - lo) rest
  drop-patch a h =
      drop-append_ge a (take lo value) rest (omega (arith, length-before))
      ∙ ap (λ k. drop (a - k) rest) length-before

  -- the range that is written
  pub slice-patch : length src ≡ hi - lo → slice lo hi (patch lo hi src value) ≡ src
  slice-patch h =
      let at_once : lo - lo ≡ 0 = omega arith in
      ap (take (hi - lo)) (drop-patch lo (omega arith) ∙ ap (λ k. drop k rest) at_once)
      ∙ take-append_le (hi - lo) (copy (slice lo hi value) src) (drop hi value)
          (omega (arith, length-middle))
      ∙ take_all (hi - lo) (copy (slice lo hi value) src) (omega (arith, length-middle))
      ∙ copy_full (slice lo hi value) src
          (omega (arith, length-middle, length-copy (slice lo hi value) src))

  -- a range behind it
  pub slice-patch_behind : (a b : ℕ) → hi ≤ a → slice a b (patch lo hi src value) ≡ slice a b value
  slice-patch_behind a b h = ap (take (b - a)) (
      drop-patch a (omega arith)
      ∙ drop-append_ge (a - lo) (copy (slice lo hi value) src) (drop hi value)
          (omega (arith, length-middle))
      ∙ drop-drop (a - lo - length (copy (slice lo hi value) src)) hi value
      ∙ ap (λ k. drop k value) (omega (arith, length-middle)))

  -- a range before it
  pub slice-patch_before : (a b : ℕ) → b ≤ lo → slice a b (patch lo hi src value) ≡ slice a b value
  slice-patch_before a b h =
      sym (drop-take a b (patch lo hi src value))
      ∙ ap (drop a) (
          take-append_le b (take lo value) rest (omega (arith, length-before))
          ∙ take-take b lo value h)
      ∙ drop-take a b value
