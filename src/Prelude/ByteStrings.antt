-- ===== src/Prelude/ByteStrings.antt =====
-- Byte strings as lists of numbers: `bytes.Equal`, `bytes.Compare`, and big-endian numbers.
use Prim.Native.Nat.{ℕ, ◌+◌, ◌*◌, ◌/◌, ◌%◌, ◌<◌}
use mathlib.Core.Bool.{Bool, true, false, ◌&&◌}
use mathlib.Core.List.{List, [], ◌∷◌}
use mathlib.Core.Logic.{◌↔◌, ◌≢◌}
use mathlib.Core.Path.{◌≡◌, refl}
use native.Mathlib.Omega.{arith}
use verkle_trie.Prelude.Tests.{◌==◌, ltb, if◌then◌else◌}
use verkle_trie.Prelude.Lists.{replicate}

abbrev pub Bytes : Type 0
Bytes = List ℕ

abbrev pub IsByte : ℕ → Type 0
IsByte b = b < 256

-- `bytes.Equal`, and `==` on arrays
unfoldable pub bytes_equal : Bytes → Bytes → Bool
bytes_equal [] [] = true
bytes_equal [] (b ∷ bs) = false
bytes_equal (a ∷ as') [] = false
bytes_equal (a ∷ as') (b ∷ bs) = a == b && bytes_equal as' bs

-- `bytes.Compare(a, b) <= 0`
unfoldable pub bytes_le : Bytes → Bytes → Bool
bytes_le [] bs = true
bytes_le (a ∷ as') [] = false
bytes_le (a ∷ as') (b ∷ bs) = let rest = bytes_le as' bs in if a == b then rest else ltb a b

pub bytes_equal-eq : (as' bs : Bytes) → bytes_equal as' bs ≡ true → as' ≡ bs
unfolding bytes_equal
bytes_equal-eq [] [] h = refl
bytes_equal-eq [] (b ∷ bs) h = cc
bytes_equal-eq (a ∷ as') [] h = cc
bytes_equal-eq (a ∷ as') (b ∷ bs) h = ground (arith, bytes_equal-eq as' bs)

pub bytes_equal_refl : (bs : Bytes) → bytes_equal bs bs ≡ true
unfolding bytes_equal
bytes_equal_refl [] = refl
bytes_equal_refl (b ∷ bs) = ground (arith, bytes_equal_refl bs)

pub bytes_equal_comm : (as' bs : Bytes) → bytes_equal as' bs ≡ bytes_equal bs as'
unfolding bytes_equal
bytes_equal_comm [] [] = refl
bytes_equal_comm [] (b ∷ bs) = refl
bytes_equal_comm (a ∷ as') [] = refl
bytes_equal_comm (a ∷ as') (b ∷ bs) = ground (arith, bytes_equal_comm as' bs)

pub bytes_equal_iff : (as' bs : Bytes) → (bytes_equal as' bs ≡ true) ↔ (as' ≡ bs)
bytes_equal_iff as' bs = (bytes_equal-eq as' bs, λ e. rw e (bytes_equal_refl bs))

pub ne→bytes_equal : (as' bs : Bytes) → as' ≢ bs → bytes_equal as' bs ≡ false
ne→bytes_equal as' bs h = ground (arith, bytes_equal-eq as' bs)

-- The number that a big-endian byte string stands for.
unfoldable pub be_value : ℕ → Bytes → ℕ
be_value acc [] = acc
be_value acc (b ∷ bs) = be_value (acc * 256 + b) bs

-- `binary.BigEndian.PutUint32`, of a number already taken modulo 2 ^ 32
abbrev pub be32 : ℕ → Bytes
be32 n = n / 16777216 % 256 ∷ n / 65536 % 256 ∷ n / 256 % 256 ∷ n % 256 ∷ []

pub be_value-be32 : (n : ℕ) → be_value 0 (be32 n) ≡ n % 4294967296
unfolding be_value
be_value-be32 n = omega arith

abbrev pub zeros : ℕ → Bytes
zeros n = replicate n 0
