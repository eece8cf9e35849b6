-- ===== src/Witness/Extracts.antt =====
-- state.go: `Extract` against the getters of the proof that it returns.
use verkle_trie.Prelude.{
  ◌≡◌, refl, ◌∙◌, sym, ap, Bool, true, false, ◌&&◌, ◌||◌, Option, none, some, List, [], ◌∷◌, Bytes,
  bytes_equal, bytes_equal-eq, bytes_equal_refl, Bool-cases, inl, inr, if◌then◌else◌, zeros,
}
use verkle_trie.Witness.{
  Amounts, Storage, Proof, lookup, insert, take_key, take_keys, extract, get_state, get_balance,
  get_nonce, get_code_hash, all_states_zero, zero_between, tri_true, value_or_zero,
}

unfoldable pub contains : List Bytes → Bytes → Bool
contains [] key = false
contains (k ∷ keys) key = bytes_equal k key || contains keys key

abbrev pub or_else : {A : Type 0} → Option A → Option A → Option A
or_else none d = d
or_else (some a) d = some a

abbrev pub is_some : {A : Type 0} → Option A → Bool
is_some none = false
is_some (some a) = true

clash : (a b c : Bytes) → a ≡ b → c ≡ b → bytes_equal a c ≡ false → ⊥
clash a b c e e' h = let t = bytes_equal_refl c in cc

pub lookup-insert :
    (storage : Storage) (key value k : Bytes)
    → lookup (insert storage key value) k
      ≡ (if bytes_equal key k then some value else lookup storage k)
unfolding lookup insert
lookup-insert [] key value k = refl
lookup-insert ((k', v) ∷ storage) key value k =
    let rest = lookup-insert storage key value k in
    elim (Bool-cases (bytes_equal k' key)) [
      | inl same ↦
          let e = bytes_equal-eq k' key same in
          rw same
            (rw e (elim (Bool-cases (bytes_equal key k)) [ inl h ↦ rw h refl | inr h ↦ rw h refl ]))
      | inr other ↦ rw other (
          rw rest (elim (Bool-cases (bytes_equal k' k)) [
            | inl h ↦
                let e = bytes_equal-eq k' k h in
                elim (Bool-cases (bytes_equal key k)) [
                  | inl h' ↦ let e' = bytes_equal-eq key k h' in absurd (clash k' k key e e' other)
                  | inr h' ↦ rw (h, h') refl
                ]
            | inr h ↦ rw h refl
          ]))
    ]

-- every key is in the map
unfoldable pub all_in : Storage → List Bytes → Bool
all_in storage [] = true
all_in storage (key ∷ keys) = is_some (lookup storage key) && all_in storage keys

-- A round for `key`, in terms of one lookup.
step_lookup :
    (o : Option Bytes) (key k : Bytes) (rest found : Bool) (filtered : Storage) (b : Bool)
    → bytes_equal key k ≡ found
    → (lookup_k : Option Bytes) → (found ≡ true → lookup_k ≡ o)
    → (if rest
        then or_else lookup_k (lookup (take_key o key (filtered, b)).0 k)
        else lookup (take_key o key (filtered, b)).0 k)
      ≡ (if found || rest then or_else lookup_k (lookup filtered k) else lookup filtered k)
unfolding take_key
step_lookup none key k true true filtered b e lk h = refl
step_lookup none key k false true filtered b e lk h = rw (h refl) refl
step_lookup none key k true false filtered b e lk h = refl
step_lookup none key k false false filtered b e lk h = refl
step_lookup (some v) key k true true filtered b e lk h = rw (h refl) refl
step_lookup (some v) key k false true filtered b e lk h =
    rw (lookup-insert filtered key v k, e, h refl) refl
step_lookup (some v) key k true false filtered b e lk h =
    rw (lookup-insert filtered key v k, e) refl
step_lookup (some v) key k false false filtered b e lk h =
    rw (lookup-insert filtered key v k, e) refl

lookup-take_keys :
    (storage : Storage) (keys : List Bytes) (filtered : Storage) (b : Bool) (k : Bytes)
    → lookup (take_keys storage keys (filtered, b)).0 k ≡ (
        if contains keys k
        then or_else (lookup storage k) (lookup filtered k)
        else lookup filtered k)
unfolding take_keys contains
lookup-take_keys storage [] filtered b k = refl
lookup-take_keys storage (key ∷ keys) filtered b k =
    let r = take_key (lookup storage key) key (filtered, b) in
    lookup-take_keys storage keys r.0 r.1 k
    ∙ step_lookup (lookup storage key) key k (contains keys k) (bytes_equal key k) filtered b refl
        (lookup storage k)
        (λ same. let e = bytes_equal-eq key k same in ap (lookup storage) (sym e))

flag-take_key :
    (o : Option Bytes) (key : Bytes) (r : Storage × Bool)
    → (take_key o key r).1 ≡ (is_some o && r.1)
unfolding take_key
flag-take_key none key r = refl
flag-take_key (some v) key r = refl

and_swap : (a b c : Bool) → ((a && b) && c) ≡ (b && (a && c))
and_swap true b c = refl
and_swap false true c = refl
and_swap false false c = refl

flag-take_keys :
    (storage : Storage) (keys : List Bytes) (r : Storage × Bool)
    → (take_keys storage keys r).1 ≡ (r.1 && all_in storage keys)
unfolding take_keys all_in
flag-take_keys storage [] (filtered, true) = refl
flag-take_keys storage [] (filtered, false) = refl
flag-take_keys storage (key ∷ keys) r =
    flag-take_keys storage keys (take_key (lookup storage key) key r)
    ∙ ap (λ b. b && all_in storage keys) (flag-take_key (lookup storage key) key r)
    ∙ and_swap (is_some (lookup storage key)) r.1 (all_in storage keys)

if_value :
    (b : Bool) (o : Option Bytes)
    → value_or_zero (if b then or_else o none else none)
      ≡ (if b then value_or_zero o else (zeros 32, false))
if_value true none = refl
if_value true (some v) = refl
if_value false o = refl

module _ {amounts : Amounts} (p : Proof amounts) where
  -- `Extract` for the root and the address of a proof returns a proof, with the same balance, nonce
  -- and code hash. Its `GetState` returns what the first proof returns for the keys that were asked
  -- for, and nothing for other keys. The flag says whether the first proof has all of the keys.
  pub extract-get_state :
      (keys : List Bytes)
      → (q : Proof amounts) × (extract amounts p p.root_hash p.address keys
          ≡ (some q, all_in p.storage keys))
        × ((key : Bytes)
            → get_state amounts q p.root_hash p.address key ≡ (
                if contains keys key
                then get_state amounts p p.root_hash p.address key
                else (zeros 32, false)))
        × (get_balance amounts q p.root_hash p.address
            ≡ get_balance amounts p p.root_hash p.address)
        × (get_nonce amounts q p.root_hash p.address ≡ get_nonce amounts p p.root_hash p.address)
        × (get_code_hash amounts q p.root_hash p.address
            ≡ get_code_hash amounts p p.root_hash p.address)
  unfolding extract get_state get_balance get_nonce get_code_hash lookup
  extract-get_state keys =
      let root = bytes_equal_refl p.root_hash in
      let address = bytes_equal_refl p.address in
      let flag = flag-take_keys p.storage keys ([], true) in
      (
        record {
          root_hash = p.root_hash;
          address = p.address;
          balance = p.balance;
          nonce = p.nonce;
          code_hash = p.code_hash;
          storage = (take_keys p.storage keys ([], true)).0;
          exists_ = p.exists_;
        },
        rw (root, address, flag) refl,
        λ key.
            rw (root, address, lookup-take_keys p.storage keys [] true key)
              (if_value (contains keys key) (lookup p.storage key)),
        refl,
        refl,
        refl,
      )

  -- `AllStatesZero` answers true for every range on a proof that `Extract` made for no keys, also
  -- where the first proof has values other than zero in the range.
  pub all_states_zero-extract :
      (from to : Bytes)
      → (q : Proof amounts) × (extract amounts p p.root_hash p.address [] ≡ (some q, true))
        × (all_states_zero amounts q p.root_hash p.address from to ≡ tri_true)
  unfolding extract all_states_zero zero_between take_keys
  all_states_zero-extract from to =
      let root = bytes_equal_refl p.root_hash in
      let address = bytes_equal_refl p.address in
      (
        record {
          root_hash = p.root_hash;
          address = p.address;
          balance = p.balance;
          nonce = p.nonce;
          code_hash = p.code_hash;
          storage = [];
          exists_ = p.exists_;
        },
        rw (root, address) refl,
        rw (root, address) refl,
      )
