-- ===== src/Witness.antt =====
-- memory/state.go: `vtWitnessProof`, the values of one account under a root hash.
pub mod Extracts
pub mod Maps
pub mod Ranges
use verkle_trie.Prelude.{
  ℕ, Bool, true, false, not, ◌&&◌, ◌||◌, Option, none, some, List, [], ◌∷◌, ◌++◌, Bytes,
  bytes_equal, bytes_le, zeros, copy, if◌then◌else◌,
}

-- What a proof calls of the package amount: `New`, `!=` and `Bytes32`.
pub record Amounts : Type 1 where
  pub Amount : Type 0
  pub new_amount : Amount
  pub equal : Amount → Amount → Bool
  pub bytes32 : Amount → Bytes

-- tribool.Tribool
pub data Tribool : Type 0 where
  unknown tri_true tri_false : Tribool

-- a map from keys to values
abbrev pub Storage : Type 0
Storage = List (Bytes × Bytes)

unfoldable pub lookup : Storage → Bytes → Option Bytes
lookup [] key = none
lookup ((k, v) ∷ storage) key =
    let rest = lookup storage key in if bytes_equal k key then some v else rest

-- `storage[key] = value`
unfoldable pub insert : Storage → Bytes → Bytes → Storage
insert [] key value = (key, value) ∷ []
insert ((k, v) ∷ storage) key value =
    let rest = insert storage key value in
    if bytes_equal k key then (key, value) ∷ storage else (k, v) ∷ rest

pub record Proof (amounts : Amounts) : Type 0 where
  pub root_hash : Bytes
  pub address : Bytes
  pub balance : amounts.Amount
  pub nonce : Bytes
  pub code_hash : Bytes
  pub storage : Storage
  pub exists_ : Bool

-- One round of the loop of `Extract`, on `filteredStorage` and `allKeysPresent`.
unfoldable pub take_key : Option Bytes → Bytes → Storage × Bool → Storage × Bool
take_key none key (filtered, all_present) = (filtered, false)
take_key (some value) key (filtered, all_present) = (insert filtered key value, all_present)

unfoldable pub take_keys : Storage → List Bytes → Storage × Bool → Storage × Bool
take_keys storage [] r = r
take_keys storage (key ∷ keys) r = take_keys storage keys (take_key (lookup storage key) key r)

-- no entry with a key in the range has a value other than zero
unfoldable pub zero_between : Storage → Bytes → Bytes → Bool
zero_between [] from to = true
zero_between ((key, value) ∷ storage) from to =
    let rest = zero_between storage from to in
    if bytes_le from key && bytes_le key to && not (bytes_equal value (zeros 32))
    then false
    else rest

-- a 64-byte storage element
unfoldable pub storage_data : Bytes → Bytes → Bytes
storage_data key value = copy (zeros 32) key ++ copy (zeros 32) value

unfoldable pub storage_elements : Storage → List Bytes
unfolding storage_data
storage_elements [] = []
storage_elements ((key, value) ∷ storage) = storage_data key value ∷ storage_elements storage

abbrev found_element : Bytes → Option Bytes → List Bytes × Bool
found_element key none = ([], false)
found_element key (some value) = (storage_data key value ∷ [], true)

abbrev pub value_or_zero : Option Bytes → Bytes × Bool
value_or_zero none = (zeros 32, false)
value_or_zero (some value) = (value, true)

module _ (amounts : Amounts) where
  -- `root == p.rootHash && address == p.address`
  abbrev pub is_for : Proof amounts → Bytes → Bytes → Bool
  is_for p root address = bytes_equal root p.root_hash && bytes_equal address p.address

  unfoldable pub extract :
      Proof amounts → Bytes → Bytes → List Bytes → Option (Proof amounts) × Bool
  unfolding take_keys
  extract p root address keys =
      let r = take_keys p.storage keys ([], true) in
      if not (bytes_equal root p.root_hash)
      then (none, false)
      else (if not (bytes_equal address p.address) then (none, false) else (
        some (record {
          root_hash = p.root_hash;
          address = p.address;
          balance = p.balance;
          nonce = p.nonce;
          code_hash = p.code_hash;
          storage = r.0;
          exists_ = p.exists_;
        }),
        r.1,
      ))

  unfoldable pub is_valid : Proof amounts → Bool
  is_valid p = not (bytes_equal p.root_hash (zeros 32))

  unfoldable pub account_data : Proof amounts → Bytes
  account_data p =
      copy (zeros 32) (amounts.bytes32 p.balance)
      ++ (copy (zeros 8) p.nonce ++ copy (zeros 32) p.code_hash)

  unfoldable pub get_elements : Proof amounts → List Bytes
  unfolding account_data storage_elements
  get_elements p = (account_data p ++ copy (zeros 32) p.address) ∷ storage_elements p.storage

  unfoldable pub get_account_elements : Proof amounts → Bytes → Bytes → List Bytes × Bytes × Bool
  unfolding account_data
  get_account_elements p root address =
      if not (is_for p root address)
      then ([], zeros 32, false)
      else (account_data p ∷ [], p.root_hash, true)

  unfoldable pub get_storage_elements : Proof amounts → Bytes → Bytes → Bytes → List Bytes × Bool
  unfolding storage_data
  get_storage_elements p root address key =
      if not (is_for p root address) then ([], false) else found_element key (lookup p.storage key)

  -- A field of the account, behind the guards of its getter.
  unfoldable pub guarded : {A : Type 0} → Proof amounts → Bytes → Bytes → A → A → A × Bool
  guarded p root address zero_field field =
      if not (is_for p root address)
      then (zero_field, false)
      else (if not p.exists_ then (zero_field, false) else (field, true))

  unfoldable pub get_balance : Proof amounts → Bytes → Bytes → amounts.Amount × Bool
  unfolding guarded
  get_balance p root address = guarded p root address amounts.new_amount p.balance

  unfoldable pub get_nonce : Proof amounts → Bytes → Bytes → Bytes × Bool
  unfolding guarded
  get_nonce p root address = guarded p root address (zeros 8) p.nonce

  unfoldable pub get_code_hash : Proof amounts → Bytes → Bytes → Bytes × Bool
  unfolding guarded
  get_code_hash p root address = guarded p root address (zeros 32) p.code_hash

  unfoldable pub get_state : Proof amounts → Bytes → Bytes → Bytes → Bytes × Bool
  get_state p root address key =
      if not (is_for p root address)
      then (zeros 32, false)
      else value_or_zero (lookup p.storage key)

  unfoldable pub all_states_zero : Proof amounts → Bytes → Bytes → Bytes → Bytes → Tribool
  unfolding zero_between
  all_states_zero p root address from to =
      if not (is_for p root address)
      then unknown
      else (if zero_between p.storage from to then tri_true else tri_false)

  unfoldable pub all_addresses_empty : Proof amounts → Bytes → Bytes → Bytes → Tribool
  all_addresses_empty p root from to =
      if not (bytes_equal root p.root_hash)
      then unknown
      else (if bytes_le from p.address
            && bytes_le p.address to
            && (p.exists_
                && (not (amounts.equal p.balance amounts.new_amount)
                    || not (bytes_equal p.nonce (zeros 8))
                    || not (bytes_equal p.code_hash (zeros 32))))
          then tri_false
          else unknown)
