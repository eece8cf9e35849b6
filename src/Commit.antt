-- ===== src/Commit.antt =====
-- commit/value.go and commit/commit.go: field values and vector commitments, as a thin layer over
-- the go-ipa library, whose types and operations are the record `Ipa`.
pub mod Update
pub mod Opening
pub mod Encoding
pub mod Binding
use verkle_trie.Prelude.{ℕ, Bool, List, Bytes, tabulate, update, copy, set, get_or, zeros, bit_or}

-- banderwagon.Fr, banderwagon.Element and ipa.IPAConfig, with what this package calls of them. The
-- `zero_` values are Go's zero values of the two types.
pub record Ipa : Type 1 where
  pub Fr : Type 0
  pub Element : Type 0
  pub zero_fr : Fr
  pub zero_element : Element
  pub set_uint64 : ℕ → Fr
  pub set_bytes_le : Bytes → Fr
  pub set_bytes : Bytes → Fr
  pub bytes : Fr → Bytes
  pub bytes_le : Fr → Bytes
  pub sub : Fr → Fr → Fr
  pub identity : Element
  pub commit : List Fr → Element
  pub add : Element → Element → Element
  pub equal : Element → Element → Bool
  pub is_on_curve : Element → Bool
  pub map_to_scalar_field : Element → Fr
  pub to_bytes : Element → Bytes

abbrev pub vector_size : ℕ
vector_size = 256

-- `Value` and `Commitment`: structs of one field.
pub record Value (ipa : Ipa) : Type 0 where
  pub scalar : ipa.Fr

pub record Commitment (ipa : Ipa) : Type 0 where
  pub point : ipa.Element

module _ (ipa : Ipa) where
  abbrev pub zero_value : Value ipa
  zero_value = record { scalar = ipa.zero_fr }

  abbrev pub zero_commitment : Commitment ipa
  zero_commitment = record { point = ipa.zero_element }

  unfoldable pub identity : Commitment ipa
  identity = record { point = ipa.identity }

  unfoldable pub new_value : ℕ → Value ipa
  new_value value = record { scalar = ipa.set_uint64 value }

  -- `var padded [32]byte; copy(padded[:], data)`
  unfoldable pub new_value_from_little_endian_bytes : Bytes → Value ipa
  new_value_from_little_endian_bytes data' = record {
    scalar = ipa.set_bytes_le (copy (zeros 32) data');
  }

  -- `bytes[15] = bytes[15] | 0x01`, on the big-endian bytes
  unfoldable pub set_bit128 : Value ipa → Value ipa
  set_bit128 v =
      let bytes = ipa.bytes v.scalar in
      record { scalar = ipa.set_bytes (set bytes 15 (bit_or (get_or bytes 15 0) 1)) }

  -- `[VectorSize]Value` is an array, here a function from indices.
  unfoldable pub commit : (ℕ → Value ipa) → Commitment ipa
  commit values = record { point = ipa.commit (tabulate vector_size (λ i. (values i).scalar)) }

  unfoldable pub is_valid : Commitment ipa → Bool
  is_valid p = ipa.is_on_curve p.point

  unfoldable pub equal : Commitment ipa → Commitment ipa → Bool
  equal p other = ipa.equal p.point other.point

  unfoldable pub to_value : Commitment ipa → Value ipa
  to_value p = record { scalar = ipa.map_to_scalar_field p.point }

  unfoldable pub hash : Commitment ipa → Bytes
  unfolding to_value
  hash p = ipa.bytes_le (to_value p).scalar

  unfoldable pub compress : Commitment ipa → Bytes
  compress p = ipa.to_bytes p.point

  -- `Update`: the commitment to the difference, which is zero but at `position`, is added.
  unfoldable pub update_commitment : Commitment ipa → ℕ → Value ipa → Value ipa → Commitment ipa
  unfolding commit
  update_commitment c position old new =
      let values : ℕ → Value ipa =
        update (λ _. zero_value) position (record { scalar = ipa.sub new.scalar old.scalar }) in
      record { point = ipa.add c.point (commit values).point }
