-- ===== src/Embedding/Keys.antt =====
-- embedding.go: the trie keys of the places.
use verkle_trie.Prelude.{
  ℕ, ◌≡◌, refl, ◌∙◌, sym, ap₂, [], ◌∷◌, ◌++◌, Bytes, length, zeros, arith, length-append,
  length-copy,
}
use verkle_trie.Commit.{Ipa}
use verkle_trie.Node.Shape.{IsKey}
use verkle_trie.Embedding.{
  Place, trie_stem, get_trie_key, get_basic_data_key, get_code_hash_key, get_code_chunk_key,
  get_storage_key,
}
use verkle_trie.Embedding.Layout.{Field, IsField, place, place-injective}

append-injective :
    (xs ys : Bytes) (a b : ℕ)
    → length xs ≡ length ys
    → xs ++ a ∷ [] ≡ ys ++ b ∷ []
    → (xs ≡ ys) × (a ≡ b)
append-injective [] [] a b len e = (refl, ground arith)
append-injective [] (y ∷ ys) a b len e = absurd (omega arith)
append-injective (x ∷ xs) [] a b len e = absurd (omega arith)
append-injective (x ∷ xs) (y ∷ ys) a b len e =
    let (t, s) = append-injective xs ys a b (omega arith) (ground arith) in (ground arith, s)

module _ (ipa : Ipa) where
  length-trie_stem : (address : Bytes) (i : ℕ) → length (trie_stem ipa address i) ≡ 31
  unfolding trie_stem
  length-trie_stem address i = length-copy (zeros 31) _

  -- `getTrieKey` returns 32 bytes, whatever the hash returns.
  pub get_trie_key-IsKey : (address : Bytes) (p : Place) → IsKey (get_trie_key ipa address p)
  unfolding get_trie_key
  get_trie_key-IsKey address p = omega (
    arith,
    length-append (trie_stem ipa address p.tree_index) (p.sub_index ∷ []),
    length-trie_stem address p.tree_index,
  )

  pub get_basic_data_key-IsKey : (address : Bytes) → IsKey (get_basic_data_key ipa address)
  unfolding get_basic_data_key
  get_basic_data_key-IsKey address = get_trie_key-IsKey address _

  pub get_code_hash_key-IsKey : (address : Bytes) → IsKey (get_code_hash_key ipa address)
  unfolding get_code_hash_key
  get_code_hash_key-IsKey address = get_trie_key-IsKey address _

  pub get_code_chunk_key-IsKey :
      (address : Bytes) (n : ℕ) → IsKey (get_code_chunk_key ipa address n)
  unfolding get_code_chunk_key
  get_code_chunk_key-IsKey address n = get_trie_key-IsKey address _

  pub get_storage_key-IsKey : (address key : Bytes) → IsKey (get_storage_key ipa address key)
  unfolding get_storage_key
  get_storage_key-IsKey address key = get_trie_key-IsKey address _

  -- the Pedersen hash does not collide on two pairs of an address and a tree index
  abbrev pub IsCollisionFree : Bytes → ℕ → Bytes → ℕ → Type 0
  IsCollisionFree a i a' i' = trie_stem ipa a i ≡ trie_stem ipa a' i' → (a ≡ a') × (i ≡ i')

  -- Two fields of two accounts have one trie key only if they are one field of one account, where
  -- the hash does not collide on their addresses and tree indices.
  pub get_trie_key-injective :
      (a a' : Bytes) (f g : Field)
      → IsField f
      → IsField g
      → IsCollisionFree a (place f).tree_index a' (place g).tree_index
      → get_trie_key ipa a (place f) ≡ get_trie_key ipa a' (place g)
      → (a ≡ a') × (f ≡ g)
  unfolding get_trie_key
  get_trie_key-injective a a' f g hf hg apart e =
      let (stems, subs) =
        append-injective _ _ (place f).sub_index (place g).sub_index
          (length-trie_stem a _ ∙ sym (length-trie_stem a' _)) e in
      let (addresses, indices) = apart stems in
      (
        addresses,
        place-injective f g hf hg (
            ap₂ (λ i j. let p : Place = record { tree_index = i; sub_index = j } in p) indices
              subs),
      )
