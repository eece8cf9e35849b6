-- ===== src/Node/Sized.antt =====
-- nodes.go: what the arrays of Go's types fix: the bytes of a stem, and values of 32 bytes.
use verkle_trie.Prelude.{
  ℕ, zero, suc, ◌≡◌, refl, true, false, some, >>=-eq-some, Bytes, IsByte, All, get_elem?, take,
  bytes_equal, Bool-cases, inl, inr, update, subst, ◌==◌,
}
use mathlib.Core.Option.{some-injective}
use verkle_trie.Commit.{Ipa}
use verkle_trie.Commit.Encoding.{IsBytes32, All-take, zeros-IsByte}
use verkle_trie.Node.{
  Node, nil, inner, leaf, Leaf, set, new_leaf, or_new_leaf, new_inner, leaf_set, next_depth, commit,
  leaf_commit,
}

module _ {ipa : Ipa} where
  -- The stems of the leaves are bytes, and the values 32 of them.
  abbrev pub IsSized : Node ipa → Type 0
  IsSized nil = Unit
  IsSized (inner children c clean) = (j : ℕ) → IsSized (children j)
  IsSized (leaf l) = All IsByte l.stem × ((s : ℕ) → IsBytes32 (l.values s))

  or_new_leaf-IsSized :
      (n : Node ipa) (key : Bytes) → All IsByte key → IsSized n → IsSized (or_new_leaf ipa n key)
  unfolding or_new_leaf new_leaf
  or_new_leaf-IsSized nil key bytes h = (All-take IsByte 31 key bytes, λ s. (refl, zeros-IsByte 32))
  or_new_leaf-IsSized (inner ch c b) key bytes h = h
  or_new_leaf-IsSized (leaf l) key bytes h = h

  leaf_set-IsSized :
      (l : Leaf ipa) (s : ℕ) (value : Bytes)
      → IsBytes32 value
      → IsSized (leaf l)
      → IsSized (leaf (leaf_set ipa l s value))
  unfolding leaf_set
  leaf_set-IsSized l s value v h =
      (h.0, λ t. elim (Bool-cases (t == s)) [ inl same ↦ rw same v | inr other ↦ rw other (h.1 t) ])

  update-IsSized :
      (children : ℕ → Node ipa) (pos : ℕ) (next : Node ipa)
      → ((j : ℕ) → IsSized (children j))
      → IsSized next
      → (j : ℕ) → IsSized (update children pos next j)
  update-IsSized children pos next h hn j = elim (Bool-cases (j == pos)) [
    | inl same ↦ rw same hn
    | inr other ↦ rw other (h j)
  ]

  -- A write of 32 bytes under a key of bytes keeps all stems and values so.
  pub set-IsSized :
      (fuel : ℕ) (n : Node ipa) (key : Bytes) (depth : ℕ) (value : Bytes) (n' : Node ipa)
      → All IsByte key
      → IsBytes32 value
      → IsSized n
      → set ipa fuel n key depth value ≡ some n'
      → IsSized n'
  unfolding set
  set-IsSized zero n key depth value n' bytes v h e = cc
  set-IsSized (suc fuel) nil key depth value n' bytes v h e = cc
  set-IsSized (suc fuel) (inner children c b) key depth value n' bytes v h e =
      let (pos, _, e1) = >>=-eq-some (get_elem? key depth) _ e in
      let (next, run, e2) = >>=-eq-some _ _ e1 in
      let kept : IsSized (inner (update children pos next) c false) =
        update-IsSized children pos next h (
          set-IsSized fuel (or_new_leaf ipa (children pos) key) key (next_depth depth) value next
            bytes v (or_new_leaf-IsSized (children pos) key bytes (h pos)) run) in
      subst IsSized (some-injective _ _ e2) kept
  set-IsSized (suc fuel) (leaf l) key depth value n' bytes v h e =
      elim (Bool-cases (bytes_equal (take 31 key) l.stem)) [
        | inl own ↦
            let (s, _, e1) = >>=-eq-some (get_elem? key 31) _ (rw own at e) in
            subst IsSized (some-injective _ _ e1) (leaf_set-IsSized l s value v h)
        | inr other ↦
            let (pos, _, e1) = >>=-eq-some (get_elem? l.stem depth) _ (rw other at e) in
            set-IsSized fuel (new_inner ipa (update (λ _. nil) pos (leaf l))) key depth value n'
              bytes v (update-IsSized (λ _. nil) pos (leaf l) (λ _. tt) h) e1
      ]

  -- A commitment moves no bytes.
  pub commit-IsSized : (n : Node ipa) → IsSized n → IsSized (commit ipa n).1
  unfolding commit leaf_commit
  commit-IsSized nil h = tt
  commit-IsSized (inner ch c true) h = h
  commit-IsSized (inner ch c false) h = λ j. commit-IsSized (ch j) (h j)
  commit-IsSized (leaf l) h = elim (Bool-cases l.commitment_clean) [
    | inl clean ↦ rw clean h
    | inr stale ↦ rw stale h
  ]
