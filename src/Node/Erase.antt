-- ===== src/Node/Erase.antt =====
-- nodes.go up to the caches: `set` and `commit` on a node with its caches thrown away.
use mathlib.Core.Option
use verkle_trie.Prelude.{
  ℕ, zero, suc, ◌≡◌, refl, ◌∙◌, sym, ap, true, false, some, ◌>>=◌, Bytes, get_elem?, take,
  bytes_equal, Bool-cases, Option-cases, inl, inr, update, fun_ext, ◌==◌,
}
use verkle_trie.Commit
use verkle_trie.Commit.{Ipa, Commitment, zero_commitment}
use verkle_trie.Node.{
  Node, nil, inner, leaf, Leaf, is_nil, set, or_new_leaf, new_inner, leaf_commit, leaf_commitment,
  commit, next_depth,
}
use verkle_trie.Node.Cache.{digest, child_values-congr, leaf_commit_clean, leaf_commit_dirty}

module _ {ipa : Ipa} where
  unfoldable pub erase_leaf : Leaf ipa → Leaf ipa
  erase_leaf l = record l { commitment = zero_commitment ipa; commitment_clean = false }

  -- the node with no cache
  unfoldable pub erase : Node ipa → Node ipa
  unfolding erase_leaf
  erase nil = nil
  erase (inner ch c b) = inner (λ j. erase (ch j)) (zero_commitment ipa) false
  erase (leaf l) = leaf (erase_leaf l)

  pub is_nil-erase : (n : Node ipa) → is_nil ipa (erase n) ≡ is_nil ipa n
  unfolding erase is_nil
  is_nil-erase nil = refl
  is_nil-erase (inner ch c b) = refl
  is_nil-erase (leaf l) = refl

  pub digest-erase : (n : Node ipa) → digest (erase n) ≡ digest n
  unfolding digest erase leaf_commitment
  digest-erase nil = refl
  digest-erase (inner ch c b) =
      ap (Commit.commit ipa)
        (child_values-congr _ ch _ _ (λ j. is_nil-erase (ch j)) (λ j. digest-erase (ch j)))
  digest-erase (leaf l) = refl

  erase_leaf-commit : (l : Leaf ipa) → erase_leaf (leaf_commit ipa l).1 ≡ erase_leaf l
  unfolding erase_leaf
  erase_leaf-commit l = elim (Bool-cases l.commitment_clean) [
    | inl clean ↦ ap (λ (r : Commitment ipa × Leaf ipa). erase_leaf r.1) (leaf_commit_clean l clean)
    | inr dirty ↦ ap (λ (r : Commitment ipa × Leaf ipa). erase_leaf r.1) (leaf_commit_dirty l dirty)
  ]

  -- `commit` fills caches and does nothing else
  pub erase-commit : (n : Node ipa) → erase (commit ipa n).1 ≡ erase n
  unfolding commit erase
  erase-commit nil = refl
  erase-commit (inner ch c true) = refl
  erase-commit (inner ch c false) =
      ap (λ (f : ℕ → Node ipa). inner f (zero_commitment ipa) false)
        (fun_ext λ j. erase-commit (ch j))
  erase-commit (leaf l) = ap leaf (erase_leaf-commit l)

  erase-or_new_leaf :
      (n : Node ipa) (key : Bytes) → erase (or_new_leaf ipa n key) ≡ or_new_leaf ipa (erase n) key
  unfolding erase or_new_leaf
  erase-or_new_leaf nil key = refl
  erase-or_new_leaf (inner ch c b) key = refl
  erase-or_new_leaf (leaf l) key = refl

  erase-update :
      (ch : ℕ → Node ipa) (pos : ℕ) (n : Node ipa)
      → (λ (j : ℕ). erase (update ch pos n j)) ≡ update (λ j. erase (ch j)) pos (erase n)
  erase-update ch pos n =
      fun_ext λ j. elim (Bool-cases (j == pos)) [ inl same ↦ rw same | inr other ↦ rw other ]

  erase-split :
      (l : Leaf ipa) (pos : ℕ)
      → erase (new_inner ipa (update (λ _. nil) pos (leaf l)))
        ≡ new_inner ipa (update (λ _. nil) pos (leaf (erase_leaf l)))
  unfolding erase
  erase-split l pos =
      ap (λ (f : ℕ → Node ipa). new_inner ipa f) (erase-update (λ _. nil) pos (leaf l))

  -- A write does not look at the caches.
  pub set-erase :
      (fuel : ℕ) (n : Node ipa) (key : Bytes) (depth : ℕ) (value : Bytes)
      → set ipa fuel (erase n) key depth value ≡ Option.map erase (set ipa fuel n key depth value)
  unfolding set erase
  set-erase zero n key depth value = refl
  set-erase (suc fuel) nil key depth value = refl
  set-erase (suc fuel) (inner ch c b) key depth value = elim (Option-cases (get_elem? key depth)) [
    | inl e ↦ rw e
    | inr (pos, e) ↦
        let below =
          ap (λ n. set ipa fuel n key (next_depth depth) value)
            (sym (erase-or_new_leaf (ch pos) key))
          ∙ set-erase fuel (or_new_leaf ipa (ch pos) key) key (next_depth depth) value in
        elim (Option-cases
          (set ipa fuel (or_new_leaf ipa (ch pos) key) key (next_depth depth) value)) [
            | inl e' ↦ rw (e, below, e')
            | inr (next, e') ↦
                rw (e, ◌>>=◌, below, e')
                  (ap (λ (f : ℕ → Node ipa). some (inner f (zero_commitment ipa) false))
                    (sym (erase-update ch pos next)))
          ]
  ]
  set-erase (suc fuel) (leaf l) key depth value =
      elim (Bool-cases (bytes_equal (take 31 key) l.stem)) [
        | inl own ↦
            rw own (elim (Option-cases (get_elem? key 31)) [ inl e ↦ rw e | inr (s, e) ↦ rw e ])
        | inr other ↦ rw other (elim (Option-cases (get_elem? l.stem depth)) [
          | inl e ↦ rw e
          | inr (pos, e) ↦
              rw (e, ◌>>=◌, ← erase-split l pos)
                (set-erase fuel (new_inner ipa (update (λ _. nil) pos (leaf l))) key depth value)
        ])
      ]
