-- ===== src/Tests/EmbeddingRuns.antt =====
-- Runs of embedding.go.
use verkle_trie.Prelude.{◌≡◌, refl, ◌^◌, ◌++◌, [], ◌∷◌, zeros, arith, be_value}
use verkle_trie.Embedding.{storage_place, code_chunk_place}
use verkle_trie.Embedding.Layout.{code_chunk}
use verkle_trie.Embedding.Keys.{get_trie_key-injective}
use verkle_trie.Tests.Toy.{toy}

-- slot 63 is the last of the header, slot 64 the first beyond it
slots :
    (storage_place (zeros 31 ++ 63 ∷ []) ≡ record { tree_index = 0; sub_index = 127 })
    × (storage_place (zeros 31 ++ 64 ∷ []) ≡ record { tree_index = 2 ^ 240; sub_index = 64 })
unfolding storage_place be_value
slots = (refl, refl)

chunks :
    (code_chunk_place 127 ≡ record { tree_index = 0; sub_index = 255 })
    × (code_chunk_place 128 ≡ record { tree_index = 1; sub_index = 0 })
unfolding code_chunk_place
chunks = (refl, refl)

get_trie_key-injective_example : (zeros 20 ≡ zeros 20) × (code_chunk 3 ≡ code_chunk 3)
get_trie_key-injective_example =
    get_trie_key-injective toy (zeros 20) (zeros 20) (code_chunk 3) (code_chunk 3) (omega arith)
      (omega arith) (λ _. (refl, refl)) refl
