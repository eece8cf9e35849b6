-- ===== src/Tests/Toy.antt =====
-- A stand-in for go-ipa, over numbers: it shows that the theorems about every `Ipa` apply to one.
use verkle_trie.Prelude.{
  ℕ, zero, suc, ◌+◌, ◌-◌, ◌*◌, ◌%◌, ◌/◌, bytes_equal, true, List, [], ◌∷◌, Bytes, be_value,
}
use verkle_trie.Commit.{Ipa}

-- each position has a weight of its own
abbrev weigh : ℕ → List ℕ → ℕ
weigh w [] = 0
weigh w (x ∷ xs) = x * w + weigh (w + 1) xs

abbrev pub le_value : Bytes → ℕ
le_value [] = 0
le_value (b ∷ bs) = b + 256 * le_value bs

abbrev pub digits_le : ℕ → ℕ → Bytes
digits_le zero n = []
digits_le (suc k) n = n % 256 ∷ digits_le k (n / 256)

abbrev pub digits_be : ℕ → ℕ → Bytes → Bytes
digits_be zero n acc = acc
digits_be (suc k) n acc = digits_be k (n / 256) (n % 256 ∷ acc)

abbrev pub toy : Ipa
toy = record {
  Fr = ℕ;
  Element = ℕ;
  zero_fr = 0;
  zero_element = 0;
  set_uint64 = λ n. n;
  set_bytes_le = le_value;
  set_bytes = be_value 0;
  bytes = λ n. digits_be 32 n [];
  bytes_le = digits_le 32;
  sub = λ a b. a - b;
  identity = 0;
  commit = weigh 1;
  add = λ a b. a + b;
  equal = λ a b. bytes_equal (digits_le 32 a) (digits_le 32 b);
  is_on_curve = λ _. true;
  map_to_scalar_field = λ n. n;
  to_bytes = digits_le 32;
}
