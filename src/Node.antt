-- ===== src/Node.antt =====
-- memory/trie/nodes.go: the inner nodes and the leaves of the trie, with their cached commitments.
pub mod Shape
pub mod Access
pub mod Cache
pub mod Erase
pub mod Used
pub mod Marks
pub mod Compact
pub mod Canonical
pub mod Sized
pub mod Vectors
pub mod Binding
use verkle_trie.Prelude.{
  ℕ, zero, suc, ◌+◌, ◌-◌, ◌*◌, ◌/◌, ◌%◌, ◌^◌, ◌≡◌, Bool, true, false, not, Option, none, some, List,
  [], ◌∷◌, ◌>>=◌, Bytes, get_elem?, take, drop, ◌==◌, if◌then◌else◌, update, bytes_equal, zeros,
  bit_and, bit_or, map,
}
use verkle_trie.Commit.{Ipa, Value, Commitment, zero_value, zero_commitment}
use verkle_trie.Commit

-- `Value{}`
abbrev pub zero_bytes32 : Bytes
zero_bytes32 = zeros 32

-- The arrays of a leaf, `[256]Value` and `[32]byte`, are functions from indices.
pub record Leaf (ipa : Ipa) : Type 0 where
  pub stem : Bytes
  pub values : ℕ → Bytes
  pub used : ℕ → ℕ
  pub commitment : Commitment ipa
  pub commitment_clean : Bool

-- The interface `node`, with its nil value. `inner` has `[256]node`, and the cached commitment with
-- its flag.
pub data Node (ipa : Ipa) : Type 0 where
  nil : Node ipa
  inner : (ℕ → Node ipa) → Commitment ipa → Bool → Node ipa
  leaf : Leaf ipa → Node ipa

-- `depth` is a byte.
abbrev pub next_depth : ℕ → ℕ
next_depth depth = (depth + 1) % 256

-- `1 << (suffix % 8)`
unfoldable pub suffix_bit : ℕ → ℕ
suffix_bit suffix = 2 ^ (suffix % 8)

module _ (ipa : Ipa) where
  unfoldable pub is_nil : Node ipa → Bool
  is_nil nil = true
  is_nil (inner _ _ _) = false
  is_nil (leaf _) = false

  unfoldable pub new_leaf : Bytes → Leaf ipa
  new_leaf key = record {
    stem = take 31 key;
    values = λ _. zero_bytes32;
    used = λ _. 0;
    commitment = zero_commitment ipa;
    commitment_clean = false;
  }

  -- `&inner{}`
  abbrev pub new_inner : (ℕ → Node ipa) → Node ipa
  new_inner children = inner children (zero_commitment ipa) false

  abbrev pub empty_inner : Node ipa
  empty_inner = new_inner (λ _. nil)

  unfoldable pub leaf_get : Leaf ipa → Bytes → Option Bytes
  leaf_get l key =
      if not (bytes_equal (take 31 key) l.stem)
      then some zero_bytes32
      else (get_elem? key 31 >>= λ suffix. some (l.values suffix))

  -- `none` is a panic: an index out of range, or a call on nil.
  unfoldable pub get : Node ipa → Bytes → ℕ → Option Bytes
  unfolding leaf_get is_nil
  get nil key depth = none
  get (inner children c clean) key depth = get_elem? key depth >>= λ pos.
      if is_nil (children pos) then some zero_bytes32 else get (children pos) key (next_depth depth)
  get (leaf l) key depth = leaf_get l key

  -- the branch of `leaf.set` for the leaf's own stem
  unfoldable pub leaf_set : Leaf ipa → ℕ → Bytes → Leaf ipa
  unfolding suffix_bit
  leaf_set l suffix value = record l {
    values = update l.values suffix value;
    used = update l.used (suffix / 8) (bit_or (l.used (suffix / 8)) (suffix_bit suffix));
    commitment_clean = false;
  }

  unfoldable pub or_new_leaf : Node ipa → Bytes → Node ipa
  unfolding new_leaf
  or_new_leaf nil key = leaf (new_leaf key)
  or_new_leaf (inner ch c clean) key = inner ch c clean
  or_new_leaf (leaf l) key = leaf l

  -- `inner.set` and `leaf.set`. Each call of the source takes one unit of fuel, and `none` is a panic
  -- or the end of the fuel.
  unfoldable pub set : ℕ → Node ipa → Bytes → ℕ → Bytes → Option (Node ipa)
  unfolding leaf_set or_new_leaf
  set zero n key depth value = none
  set (suc fuel) nil key depth value = none
  set (suc fuel) (inner children c clean) key depth value = do
    pos ← get_elem? key depth
    next ← set fuel (or_new_leaf (children pos) key) key (next_depth depth) value
    some (inner (update children pos next) c false)
  set (suc fuel) (leaf l) key depth value =
      let own = (get_elem? key 31 >>= λ suffix. some (leaf (leaf_set l suffix value))) in
      let split : Option (Node ipa) =
        (get_elem? l.stem depth >>= λ pos.
        set fuel (new_inner (update (λ _. nil) pos (leaf l))) key depth value) in
      if bytes_equal (take 31 key) l.stem then own else split

  unfoldable pub is_used : Leaf ipa → ℕ → Bool
  unfolding suffix_bit
  is_used l suffix = not (bit_and (l.used (suffix / 8)) (suffix_bit suffix) == 0)

  -- `values[i/128][(2*i)%256]` and `values[i/128][(2*i+1)%256]`: position `j` of half `h` comes from
  -- the value of suffix `128 * h + j / 2`.
  unfoldable pub half_values : Leaf ipa → ℕ → ℕ → Value ipa
  unfolding is_used
  half_values l h j =
      let i = 128 * h + j / 2 in
      let v = l.values i in
      let lower = Commit.new_value_from_little_endian_bytes ipa (take 16 v) in
      let upper = Commit.new_value_from_little_endian_bytes ipa (drop 16 v) in
      if j % 2 == 0 then (if is_used l i then Commit.set_bit128 ipa lower else lower) else upper

  -- the commitment that `leaf.commit` computes
  unfoldable pub leaf_commitment : Leaf ipa → Commitment ipa
  unfolding half_values
  leaf_commitment l =
      let c1 = Commit.commit ipa (half_values l 0) in
      let c2 = Commit.commit ipa (half_values l 1) in
      Commit.commit ipa (
        update
          (update
            (update (update (λ _. zero_value ipa) 0 (Commit.new_value ipa 1)) 1
              (Commit.new_value_from_little_endian_bytes ipa l.stem))
            2 (Commit.to_value ipa c1))
          3 (Commit.to_value ipa c2))

  -- the cached commitment where it is clean
  unfoldable pub leaf_commit : Leaf ipa → Commitment ipa × Leaf ipa
  unfolding leaf_commitment
  leaf_commit l =
      let c = leaf_commitment l in
      if l.commitment_clean
      then (l.commitment, l)
      else (c, record l { commitment = c; commitment_clean = true })

  -- the commitments of the children as values, zero for a nil child
  unfoldable pub child_values : (ℕ → Node ipa) → (ℕ → Commitment ipa) → ℕ → Value ipa
  unfolding is_nil
  child_values children commitments j =
      if is_nil (children j) then zero_value ipa else Commit.to_value ipa (commitments j)

  -- `commit` of both: the commitment, and the node with its caches filled.
  unfoldable pub commit : Node ipa → Commitment ipa × Node ipa
  unfolding leaf_commit child_values
  commit nil = (zero_commitment ipa, nil)
  commit (inner children c true) = (c, inner children c true)
  commit (inner children c false) =
      let c' = Commit.commit ipa (child_values children (λ j. (commit (children j)).0)) in
      (c', inner (λ j. (commit (children j)).1) c' true)
  commit (leaf l) = let r = leaf_commit l in (r.0, leaf r.1)
