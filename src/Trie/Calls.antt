-- ===== src/Trie/Calls.antt =====
-- nodes.go and trie.go: the calls of `set`, one inside the other, come to an end.
use verkle_trie.Prelude.{
  ℕ, zero, suc, ◌+◌, ◌-◌, ◌≤◌, ◌≡◌, refl, ◌∙◌, ap, some, >>=-eq-some, [], Bytes, bytes_equal, take,
  get_elem?, update, Bool-cases, inl, inr, arith,
}
use verkle_trie.Commit.{Ipa}
use verkle_trie.Node
use verkle_trie.Node.{Node, nil, inner, leaf, is_nil, or_new_leaf, next_depth, new_inner, leaf_set}
use verkle_trie.Node.Shape.{IsKey}
use verkle_trie.Node.Access.{set-Sets}
use verkle_trie.Trie.{Trie, set}
use verkle_trie.Trie.Laws.{IsValid, start, start-Starts}

module _ {ipa : Ipa} where
  -- A call that ends is not changed by more fuel.
  set-suc :
      (fuel : ℕ) (n : Node ipa) (key : Bytes) (depth : ℕ) (value : Bytes) (n' : Node ipa)
      → Node.set ipa fuel n key depth value ≡ some n'
      → Node.set ipa (suc fuel) n key depth value ≡ some n'
  unfolding Node.set
  set-suc zero n key depth value n' e = cc
  set-suc (suc fuel) nil key depth value n' e = cc
  set-suc (suc fuel) (inner children c clean) key depth value n' e =
      let (pos, at_depth, e1) = >>=-eq-some (get_elem? key depth) _ e in
      let child = or_new_leaf ipa (children pos) key in
      let (next, run, e2) =
        >>=-eq-some (Node.set ipa fuel child key (next_depth depth) value) _ e1 in
      rw (at_depth, set-suc fuel child key (next_depth depth) value next run) e2
  set-suc (suc fuel) (leaf l) key depth value n' e =
      elim (Bool-cases (bytes_equal (take 31 key) l.stem)) [
        | inl own ↦ rw own (rw own at e)
        | inr other ↦
            let (pos, at_depth, run) = >>=-eq-some (get_elem? l.stem depth) _ (rw other at e) in
            rw (other, at_depth)
              (set-suc fuel (new_inner ipa (update (λ _. nil) pos (leaf l))) key depth value n' run)
      ]

  set-more :
      (more fuel : ℕ) (n : Node ipa) (key : Bytes) (depth : ℕ) (value : Bytes) (n' : Node ipa)
      → Node.set ipa fuel n key depth value ≡ some n'
      → Node.set ipa (more + fuel) n key depth value ≡ some n'
  set-more zero fuel n key depth value n' e =
      ap (λ m. Node.set ipa m n key depth value) (omega arith) ∙ e
  set-more (suc more) fuel n key depth value n' e =
      ap (λ m. Node.set ipa m n key depth value) (omega arith)
      ∙ set-suc (more + fuel) n key depth value n' (set-more more fuel n key depth value n' e)

  -- `Set` of a 32-byte key on a valid trie ends after at most 62 calls of `set`, one inside the other:
  -- with 62 or more units of fuel the calls return one node, which is the root that `Set` leaves.
  pub set_calls :
      (t : Trie ipa) (key value : Bytes)
      → IsValid t
      → IsKey key
      → (n : Node ipa) × (set ipa t key value ≡ some (record { root = n }))
        × ((fuel : ℕ) → 62 ≤ fuel → Node.set ipa fuel (start t.root) key 0 value ≡ some n)
  unfolding set
  set_calls t key value v len =
      let s = start-Starts t.root v.rooted v.placed v.coherent in
      let within = s.within in
      let (n, run, _) =
        set-Sets 62 (start t.root) [] key value s.not_nil s.placed len refl (omega arith) in
      let enough : (fuel : ℕ) → 62 ≤ fuel → Node.set ipa fuel (start t.root) key 0 value ≡ some n =
        λ fuel h.
          ap (λ m. Node.set ipa m (start t.root) key 0 value) (omega arith)
          ∙ set-more (fuel - 62) 62 (start t.root) key 0 value n run in
      (n, rw (enough 64 (omega arith)) refl, enough)
