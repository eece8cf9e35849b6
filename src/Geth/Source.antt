-- ===== src/Geth/Source.antt =====
-- geth/node_source.go and geth/memory_source.go: where the nodes of a persistent trie are kept.
use verkle_trie.Prelude.{
  ◌≡◌, refl, ◌∙◌, sym, ap, Option, none, some, List, [], ◌∷◌, Bytes, bytes_equal, bytes_equal-eq,
  Bool-cases, inl, inr,
}
use verkle_trie.Witness.{Storage, lookup, insert}
use verkle_trie.Witness.Extracts.{lookup-insert, or_else}
use verkle_trie.Witness.Ranges.{IsMap}

-- `NodeSource`: a read returns none for a missing node, and leaves out the owner and the hash, which no
-- source here looks at; the calls that may fail return the error
pub record NodeSource (Failure : Type 0) : Type 1 where
  pub Source : Type 0
  pub node : Source → Bytes → Option Bytes
  pub set : Source → Bytes → Bytes → Source × Option Failure
  pub flush : Source → Source × Option Failure
  pub close : Source → Source × Option Failure

-- `memorySource`, a map from paths to nodes
pub record MemorySource : Type 0 where
  pub nodes : Storage

unfoldable pub memory_node : MemorySource → Bytes → Option Bytes
memory_node s path = lookup s.nodes path

module _ (Failure : Type 0) where
  unfoldable pub memory_set : MemorySource → Bytes → Bytes → MemorySource × Option Failure
  memory_set s path value = (record { nodes = insert s.nodes path value }, none)

  unfoldable pub memory_flush : MemorySource → MemorySource × Option Failure
  memory_flush s = (s, none)

  unfoldable pub memory_close : MemorySource → MemorySource × Option Failure
  unfolding memory_flush
  memory_close s = memory_flush s

  -- `newMemorySource`, as a `NodeSource`
  abbrev pub memory_source : NodeSource Failure
  memory_source = record {
    Source = MemorySource;
    node = memory_node;
    set = memory_set;
    flush = memory_flush;
    close = memory_close;
  }

module _ {Failure : Type 0} (src : NodeSource Failure) where
  -- `errs = append(errs, source.set(path, blob))` over a node set: the errors that are not nil
  unfoldable pub store_nodes : src.Source → List (Bytes × Bytes) → src.Source × List Failure
  store_nodes s [] = (s, [])
  store_nodes s ((path, blob) ∷ nodes) =
      let r = src.set s path blob in
      let rest = store_nodes r.0 nodes in (rest.0, elim r.1 [ none ↦ rest.1 | some e ↦ e ∷ rest.1 ])

module _ (Failure : Type 0) where
  -- A memory source refuses no node.
  pub store_nodes-memory_source :
      (s : MemorySource) (nodes : List (Bytes × Bytes))
      → (store_nodes (memory_source Failure) s nodes).1 ≡ []
  unfolding store_nodes memory_set
  store_nodes-memory_source s [] = refl
  store_nodes-memory_source s ((path, blob) ∷ nodes) =
      store_nodes-memory_source (record { nodes = insert s.nodes path blob }) nodes

  -- After a node set with each path once is stored, a memory source has its node under each of its
  -- paths, and what it had under all others.
  pub memory_node-store_nodes :
      (s : MemorySource) (nodes : List (Bytes × Bytes)) (path : Bytes)
      → IsMap nodes
      → memory_node (store_nodes (memory_source Failure) s nodes).0 path
        ≡ or_else (lookup nodes path) (memory_node s path)
  unfolding store_nodes memory_set memory_node lookup IsMap
  memory_node-store_nodes s [] path m = refl
  memory_node-store_nodes s ((p, blob) ∷ nodes) path m =
      memory_node-store_nodes (record { nodes = insert s.nodes p blob }) nodes path m.1
      ∙ ap (or_else (lookup nodes path)) (lookup-insert s.nodes p blob path)
      ∙ (elim (Bool-cases (bytes_equal p path)) [
        | inr other ↦ rw other refl
        | inl same ↦
            let missing : lookup nodes path ≡ none =
              ap (lookup nodes) (sym (bytes_equal-eq p path same)) ∙ m.0 in
            rw (same, missing) refl
      ])
