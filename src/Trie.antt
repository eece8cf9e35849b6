-- ===== src/Trie.antt =====
-- memory/trie/trie.go: the trie, a root node that may be nil.
pub mod Laws
pub mod Calls
pub mod History
pub mod Commits
pub mod Contents
pub mod Sized
pub mod Binding
pub mod Reached
use verkle_trie.Prelude.{ℕ, List, [], ◌∷◌, Option, none, some, ◌>>=◌, Bytes, if◌then◌else◌}
use verkle_trie.Commit
use verkle_trie.Commit.{Ipa, Commitment}
use verkle_trie.Node
use verkle_trie.Node.{Node, nil, zero_bytes32, is_nil, empty_inner}

pub record Trie (ipa : Ipa) : Type 0 where
  pub root : Node ipa

-- Each depth from 0 to 30 takes at most a call of `inner.set` and one of `leaf.set`.
abbrev pub max_calls : ℕ
max_calls = 64

module _ (ipa : Ipa) where
  -- `&trie.Trie{}`
  abbrev pub empty : Trie ipa
  empty = record { root = nil }

  unfoldable pub get : Trie ipa → Bytes → Option Bytes
  unfolding is_nil
  get t key = if is_nil ipa t.root then some zero_bytes32 else Node.get ipa t.root key 0

  unfoldable pub set : Trie ipa → Bytes → Bytes → Option (Trie ipa)
  unfolding is_nil
  set t key value =
      let root = if is_nil ipa t.root then empty_inner ipa else t.root in
      Node.set ipa max_calls root key 0 value >>= λ root'. some (record { root = root' })

  unfoldable pub commit : Trie ipa → Commitment ipa × Trie ipa
  unfolding is_nil
  commit t =
      let r = Node.commit ipa t.root in
      if is_nil ipa t.root then (Commit.identity ipa, t) else (r.0, record { root = r.1 })

-- What a client does with a trie.
pub data Op : Type 0 where
  put : Bytes → Bytes → Op
  commits : Op

module _ (ipa : Ipa) where
  unfoldable pub step : Trie ipa → Op → Option (Trie ipa)
  step t (put key value) = set ipa t key value
  step t commits = some (commit ipa t).1

  unfoldable pub run : Trie ipa → List Op → Option (Trie ipa)
  unfolding step
  run t [] = some t
  run t (op ∷ ops) = step t op >>= λ t'. run t' ops
