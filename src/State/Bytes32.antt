-- ===== src/State/Bytes32.antt =====
-- embedding.go, code.go and state.go: the keys and values that `Apply` writes are bytes.
use verkle_trie.Prelude.{
  ℕ, zero, suc, ◌+◌, ◌-◌, ◌*◌, ◌≤◌, Bool, false, not, ◌&&◌, List, [], ◌∷◌, Bytes, IsByte, All,
  All-append, length, length-copy, take, drop, slice, copy, zeros, get_or, ltb, be32, be_value,
  Bool-cases, inl, inr, arith,
}
use verkle_trie.Code.{leading_data, chunks_from, is_code_of, split_code}
use verkle_trie.Commit
use verkle_trie.Commit.Encoding.{IsBytes32, All-take, All-drop, copy-All, zeros-IsByte}
use verkle_trie.Embedding.{
  Place, trie_stem, get_trie_key, storage_place, code_storage_delta, get_basic_data_key,
  get_code_hash_key, get_code_chunk_key, get_storage_key,
}
use verkle_trie.Embedding.Keys.{get_trie_key-IsKey}
use verkle_trie.State.{Env, Update, patch}
use verkle_trie.State.Patch.{length-patch}

-- The types `[32]byte` of what other packages return, and `[]byte` of a hash's bytes.
pub record HasTypes (env : Env) : Type 0 where
  pub bytes_le-bytes : (x : env.ipa.Fr) → All IsByte (env.ipa.bytes_le x)
  pub keccak256-bytes : (code : Bytes) → IsBytes32 (env.keccak256 code)
  pub empty_code_hash-bytes : IsBytes32 env.empty_code_hash
  pub bytes32-bytes : (a : env.Amount) → IsBytes32 (env.bytes32 a)

-- The types of an update's fields: nonces, keys and codes of bytes, and values of 32.
pub record IsTyped {env : Env} (update : Update env) : Type 0 where
  pub nonces : All (λ (p : Bytes × Bytes). All IsByte p.1) update.nonces
  pub slots : All (λ (p : Bytes × Bytes × Bytes). All IsByte p.1 × IsBytes32 p.2) update.slots
  pub codes : All (λ (p : Bytes × Bytes). All IsByte p.1) update.codes

get_or-All : (P : ℕ → Type 0) (xs : Bytes) (i d : ℕ) → P d → All P xs → P (get_or xs i d)
get_or-All P [] i d hd h = hd
get_or-All P (x ∷ xs) zero d hd h = h.0
get_or-All P (x ∷ xs) (suc i) d hd h = get_or-All P xs i d hd h.1

storage_place-IsByte : (key : Bytes) → All IsByte key → IsByte (storage_place key).sub_index
unfolding storage_place
storage_place-IsByte key h = elim (Bool-cases (ltb (be_value 0 key) code_storage_delta)) [
  | inl low ↦ rw low (omega arith)
  | inr high ↦ rw high (get_or-All IsByte key (length key - 1) 0 (omega arith) h)
]

pub patch-IsBytes32 :
    (lo hi : ℕ) (src value : Bytes)
    → lo ≤ hi
    → hi ≤ 32
    → All IsByte src
    → IsBytes32 value
    → IsBytes32 (patch lo hi src value)
patch-IsBytes32 lo hi src value h h' bytes v = (
  let size = v.0 in omega (arith, length-patch lo hi src value h (omega arith)),
  All-append (take lo value) _ IsByte (All-take IsByte lo value v.1) (
      All-append (copy (slice lo hi value) src) (drop hi value) IsByte
        (copy-All IsByte (slice lo hi value) src
          (All-take IsByte (hi - lo) (drop lo value) (All-drop IsByte lo value v.1)) bytes)
        (All-drop IsByte hi value v.1)),
)

pub be32-bytes : (n : ℕ) → All IsByte (be32 n)
be32-bytes n = (omega arith, (omega arith, (omega arith, (omega arith, tt))))

leading_data-le :
    (rounds : ℕ) (is_code : List Bool) (j : ℕ) → leading_data rounds is_code j ≤ rounds
unfolding leading_data
leading_data-le zero is_code j = omega arith
leading_data-le (suc rounds) is_code j =
    let h = leading_data-le rounds is_code (j + 1) in
    elim (Bool-cases (ltb j (length is_code) && not (get_or is_code j false))) [
      | inl data' ↦ rw data' (omega arith)
      | inr code ↦ rw code (omega arith)
    ]

chunks_from-IsBytes32 :
    (rounds : ℕ) (is_code : List Bool) (i : ℕ) (code : Bytes)
    → All IsByte code
    → All IsBytes32 (chunks_from rounds is_code i code)
unfolding chunks_from
chunks_from-IsBytes32 zero is_code i code h = tt
chunks_from-IsBytes32 (suc rounds) is_code i [] h = tt
chunks_from-IsBytes32 (suc rounds) is_code i (b ∷ code) h =
    let count = leading_data-le 31 is_code (31 * i) in
    (
      (
        omega (arith, length-copy (zeros 31) (b ∷ code)),
        (omega arith, copy-All IsByte (zeros 31) (b ∷ code) (zeros-IsByte 31) h),
      ),
      chunks_from-IsBytes32 rounds is_code (i + 1) (drop 31 (b ∷ code))
          (All-drop IsByte 31 (b ∷ code) h),
    )

pub split_code-IsBytes32 : (code : Bytes) → All IsByte code → All IsBytes32 (split_code code)
unfolding split_code
split_code-IsBytes32 code h = chunks_from-IsBytes32 (length code) (is_code_of code) 0 code h

module _ {env : Env} (types : HasTypes env) where
  get_trie_key-IsBytes32 :
      (address : Bytes) (p : Place)
      → IsByte p.sub_index
      → IsBytes32 (get_trie_key env.ipa address p)
  unfolding get_trie_key trie_stem Commit.hash
  get_trie_key-IsBytes32 address p h = (
    get_trie_key-IsKey env.ipa address p,
    All-append (trie_stem env.ipa address p.tree_index) (p.sub_index ∷ []) IsByte
        (copy-All IsByte (zeros 31) _ (zeros-IsByte 31)
          (All-take IsByte 31 _ (types.bytes_le-bytes _)))
        (h, tt),
  )

  pub get_basic_data_key-IsBytes32 :
      (address : Bytes) → IsBytes32 (get_basic_data_key env.ipa address)
  unfolding get_basic_data_key
  get_basic_data_key-IsBytes32 address = get_trie_key-IsBytes32 address _ (omega arith)

  pub get_code_hash_key-IsBytes32 :
      (address : Bytes) → IsBytes32 (get_code_hash_key env.ipa address)
  unfolding get_code_hash_key
  get_code_hash_key-IsBytes32 address = get_trie_key-IsBytes32 address _ (omega arith)

  pub get_code_chunk_key-IsBytes32 :
      (address : Bytes) (n : ℕ) → IsBytes32 (get_code_chunk_key env.ipa address n)
  unfolding get_code_chunk_key
  get_code_chunk_key-IsBytes32 address n = get_trie_key-IsBytes32 address _ (omega arith)

  pub get_storage_key-IsBytes32 :
      (address key : Bytes) → All IsByte key → IsBytes32 (get_storage_key env.ipa address key)
  unfolding get_storage_key
  get_storage_key-IsBytes32 address key h =
      get_trie_key-IsBytes32 address (storage_place key) (storage_place-IsByte key h)
