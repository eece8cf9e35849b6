-- ===== src/Snapshot/Samples.antt =====
-- state.go: what `serializeTrie` collects, the values other than zero under the keys that it samples.
use verkle_trie.Prelude.{
  ℕ, zero, suc, ◌+◌, ◌*◌, ◌≤◌, ◌≡◌, refl, ◌∙◌, sym, ap, Bool, true, false, ◌||◌, Option, none, some,
  List, [], ◌∷◌, ◌++◌, Bytes, bytes_equal, bytes_equal-eq, length, zeros, tabulate, length-tabulate,
  length-append, Bool-cases, inl, inr, All, All-append, All-tabulate, arith, if◌then◌else◌,
}
use verkle_trie.Commit.{Ipa}
use verkle_trie.Embedding.{get_storage_key, get_code_chunk_key}
use verkle_trie.Embedding.Keys.{
  get_basic_data_key-IsKey, get_code_hash_key-IsKey, get_code_chunk_key-IsKey,
  get_storage_key-IsKey,
}
use verkle_trie.Node.Shape.{IsKey}
use verkle_trie.Trie
use verkle_trie.Trie.{Trie}
use verkle_trie.Witness.{Storage, lookup, insert}
use verkle_trie.Witness.Extracts.{contains, lookup-insert}
use verkle_trie.Witness.Ranges.{IsMap}
use verkle_trie.Witness.Maps.{insert-IsMap, length-insert, All-insert}
use verkle_trie.Snapshot.{sampled_keys, collect, collect_addresses}
use verkle_trie.Snapshot.RoundTrip.{IsEntry}

pub sampled_keys-IsKey : (ipa : Ipa) (address : Bytes) → All IsKey (sampled_keys ipa address)
unfolding sampled_keys
sampled_keys-IsKey ipa address = (
  get_basic_data_key-IsKey ipa address,
  (
    get_code_hash_key-IsKey ipa address,
    All-append _ _ IsKey
        (All-tabulate IsKey 256 _ (λ i. get_storage_key-IsKey ipa address (zeros 31 ++ i ∷ [])))
        (All-tabulate IsKey 1024 _ (λ i. get_code_chunk_key-IsKey ipa address i)),
  ),
)

length-sampled_keys : (ipa : Ipa) (address : Bytes) → length (sampled_keys ipa address) ≡ 1282
unfolding sampled_keys
length-sampled_keys ipa address =
    let slots = tabulate 256 (λ slot. get_storage_key ipa address (zeros 31 ++ slot ∷ [])) in
    let chunks = tabulate 1024 (λ chunk. get_code_chunk_key ipa address chunk) in
    omega (
      arith,
      length-append slots chunks,
      length-tabulate 256 (λ slot. get_storage_key ipa address (zeros 31 ++ slot ∷ [])),
      length-tabulate 1024 (λ chunk. get_code_chunk_key ipa address chunk),
    )

-- the key is among the sampled keys of one of `rounds` addresses, from `addr_byte` on
unfoldable pub is_sampled : Ipa → ℕ → ℕ → Bytes → Bool
unfolding sampled_keys contains
is_sampled ipa zero addr_byte key = false
is_sampled ipa (suc rounds) addr_byte key =
    contains (sampled_keys ipa (addr_byte ∷ zeros 19)) key
    || is_sampled ipa rounds (addr_byte + 1) key

-- the value, unless it is zero
abbrev pub nonzero : Bytes → Option Bytes
nonzero value = if bytes_equal value (zeros 32) then none else some value

-- The entries are the values of `f` other than zero under the seen keys, each key once.
pub record Samples (f : Bytes → Bytes) (seen : Bytes → Bool) (bound : ℕ) (entries : Storage)
    : Type 0 where
  pub map : IsMap entries
  pub sized : All IsEntry entries
  pub short : length entries ≤ bound
  pub finds : (k : Bytes) → lookup entries k ≡ (if seen k then nonzero (f k) else none)

empty-Samples : (f : Bytes → Bytes) → Samples f (λ k. false) 0 []
unfolding lookup IsMap
empty-Samples f = record { map = tt; sized = tt; short = omega arith; finds = λ k. refl }

Samples-weaken :
    {f : Bytes → Bytes} {seen : Bytes → Bool} {bound : ℕ} {entries : Storage} (seen' : Bytes → Bool)
    (bound' : ℕ)
    → Samples f seen bound entries
    → ((k : Bytes) → seen k ≡ seen' k)
    → bound ≤ bound'
    → Samples f seen' bound' entries
Samples-weaken {f = f} seen' bound' s same more = record {
  map = s.map;
  sized = s.sized;
  short = let h = s.short in omega arith;
  finds = λ k. s.finds k ∙ ap (λ b. if b then nonzero (f k) else none) (same k);
}

-- one more key is seen
Samples-step :
    {f : Bytes → Bytes} {seen : Bytes → Bool} {bound : ℕ} {entries : Storage} (key : Bytes)
    → Samples f seen bound entries
    → IsKey key
    → length (f key) ≡ 32
    → Samples f
        (λ k. bytes_equal key k || seen k)
        (bound + 1)
        (if bytes_equal (f key) (zeros 32) then entries else insert entries key (f key))
Samples-step {f = f} {seen = seen} {bound = bound} {entries = entries} key s len size =
    let short = s.short in
    elim (Bool-cases (bytes_equal (f key) (zeros 32))) [
      | inl nothing ↦ rw nothing (record {
        map = s.map;
        sized = s.sized;
        short = omega arith;
        finds = λ k. elim (Bool-cases (bytes_equal key k)) [
          | inr other ↦ rw other (s.finds k)
          | inl same ↦
              let e = bytes_equal-eq key k same in
              let none_there : nonzero (f k) ≡ none =
                ap (λ x. nonzero (f x)) (sym e) ∙ (rw nothing refl) in
              s.finds k ∙ (elim (Bool-cases (seen k)) [
                | inl old ↦ rw (same, old) refl
                | inr new ↦ rw (same, new) (sym none_there)
              ])
        ];
      })
      | inr value ↦ rw value (record {
        map = insert-IsMap entries key (f key) s.map;
        sized = All-insert IsEntry entries key (f key) s.sized (len, size);
        short = omega (arith, length-insert entries key (f key));
        finds = λ k. lookup-insert entries key (f key) k ∙ (elim (Bool-cases (bytes_equal key k)) [
          | inr other ↦ rw other (s.finds k)
          | inl same ↦
              let e = bytes_equal-eq key k same in
              let there : nonzero (f k) ≡ some (f key) =
                ap (λ x. nonzero (f x)) (sym e) ∙ (rw value refl) in
              rw same (sym there)
        ]);
      })
    ]

or_rotate : (a b c : Bool) → (a || (b || c)) ≡ ((b || a) || c)
or_rotate true true c = refl
or_rotate true false c = refl
or_rotate false true c = refl
or_rotate false false c = refl

or_false : (b : Bool) → (b || false) ≡ b
or_false true = refl
or_false false = refl

module _ {ipa : Ipa} (t : Trie ipa) (f : Bytes → Bytes)
    (reads : (k : Bytes) → IsKey k → Trie.get ipa t k ≡ some (f k))
    (sizes : (k : Bytes) → IsKey k → length (f k) ≡ 32) where
  collect-Samples :
      (keys : List Bytes) (entries : Storage) (seen : Bytes → Bool) (bound : ℕ)
      → All IsKey keys
      → Samples f seen bound entries
      → (r : Storage) × (collect ipa t keys entries ≡ some r)
        × Samples f (λ k. contains keys k || seen k) (bound + length keys) r
  unfolding collect contains
  collect-Samples [] entries seen bound h s =
      (entries, refl, Samples-weaken seen (bound + 0) s (λ k. refl) (omega arith))
  collect-Samples (key ∷ keys) entries seen bound h s =
      let next = if bytes_equal (f key) (zeros 32) then entries else insert entries key (f key) in
      let (r, e, s') =
        collect-Samples keys next (λ k. bytes_equal key k || seen k) (bound + 1) h.1
          (Samples-step key s h.0 (sizes key h.0)) in
      (
        r,
        rw (reads key h.0) e,
        Samples-weaken (λ k. contains (key ∷ keys) k || seen k) (bound + length (key ∷ keys)) s'
            (λ k. or_rotate (contains keys k) (bytes_equal key k) (seen k)) (omega arith),
      )

  collect_addresses-Samples :
      (rounds a : ℕ) (entries : Storage) (seen : Bytes → Bool) (bound : ℕ)
      → Samples f seen bound entries
      → (r : Storage) × (collect_addresses ipa rounds a t entries ≡ some r)
        × Samples f (λ k. is_sampled ipa rounds a k || seen k) (bound + rounds * 1282) r
  unfolding collect_addresses is_sampled
  collect_addresses-Samples zero a entries seen bound s =
      (entries, refl, Samples-weaken seen (bound + 0 * 1282) s (λ k. refl) (omega arith))
  collect_addresses-Samples (suc rounds) a entries seen bound s =
      let keys = sampled_keys ipa (a ∷ zeros 19) in
      let (r, e, s1) =
        collect-Samples keys entries seen bound (sampled_keys-IsKey ipa (a ∷ zeros 19)) s in
      let (r', e', s2) =
        collect_addresses-Samples rounds (a + 1) r (λ k. contains keys k || seen k)
          (bound + length keys) s1 in
      (
        r',
        rw e e',
        Samples-weaken (λ k. is_sampled ipa (suc rounds) a k || seen k) (bound + suc rounds * 1282)
            s2 (λ k. or_rotate (is_sampled ipa rounds (a + 1) k) (contains keys k) (seen k))
            (omega (arith, length-sampled_keys ipa (a ∷ zeros 19))),
      )

  -- the loops of `serializeTrie`
  pub collect_all-Samples :
      (r : Storage) × (collect_addresses ipa 256 0 t [] ≡ some r)
      × Samples f (is_sampled ipa 256 0) 328192 r
  collect_all-Samples =
      let (r, e, s) = collect_addresses-Samples 256 0 [] (λ k. false) 0 (empty-Samples f) in
      (
        r,
        e,
        Samples-weaken (is_sampled ipa 256 0) 328192 s (λ k. or_false (is_sampled ipa 256 0 k))
            (omega arith),
      )
