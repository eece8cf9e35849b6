-- ===== src/Code.antt =====
-- memory/code.go: contract code as 31-byte chunks, each behind the number of leading bytes that are
-- push data, and the way back.
pub mod RoundTrip
pub mod Instructions
pub mod Chunks
use verkle_trie.Prelude.{
  ℕ, zero, suc, ◌+◌, ◌-◌, ◌*◌, ◌/◌, ◌≤◌, ◌<◌, ◌≡◌, Bool, true, false, ◌&&◌, not, Option, none, some,
  List, [], ◌∷◌, ◌++◌, Bytes, length, get_elem?, get_or, set, take, drop, replicate, copy, ltb, leb,
  if◌then◌else◌, zeros,
}

abbrev pub push1 : ℕ
push1 = 0x60

abbrev pub push32 : ℕ
push32 = 0x7f

-- `if PUSH1 <= cur && cur <= PUSH32 { i += int(cur-PUSH1) + 1 }`: how far `i` moves beyond the `i++`
unfoldable pub push_size : ℕ → ℕ
push_size cur = if leb push1 cur && leb cur push32 then cur - push1 + 1 else 0

-- the same, behind `if i < len(code)`
unfoldable pub data_size : Bytes → ℕ → ℕ
unfolding push_size
data_size code i = if ltb i (length code) then push_size (get_or code i 0) else 0

-- The first loop, on the array `isCode`: the rounds that are left, at most one for each index.
unfoldable pub mark : ℕ → Bytes → List Bool → ℕ → List Bool
unfolding data_size
mark zero code is_code i = is_code
mark (suc rounds) code is_code i =
    let rest = mark rounds code (set is_code i true) (i + data_size code i + 1) in
    if ltb i (length is_code) then rest else is_code

unfoldable pub is_code_of : Bytes → List Bool
unfolding mark
is_code_of code = let n = length code + 30 in mark n code (replicate n false) 0

-- `for j := 31 * i; j < 31*(i+1) && j < len(isCode) && !isCode[j]; j++ { next[0]++ }`, with the
-- rounds up to `31*(i+1)`
unfoldable pub leading_data : ℕ → List Bool → ℕ → ℕ
leading_data zero is_code j = 0
leading_data (suc rounds) is_code j =
    let rest = leading_data rounds is_code (j + 1) in
    if ltb j (length is_code) && not (get_or is_code j false) then suc rest else 0

-- The second loop: one chunk of 1 + 31 bytes a round, until no code is left. A round takes a byte at
-- least, so the length of the code bounds the rounds.
unfoldable pub chunks_from : ℕ → List Bool → ℕ → Bytes → List Bytes
chunks_from zero is_code i code = []
chunks_from (suc rounds) is_code i [] = []
chunks_from (suc rounds) is_code i (b ∷ code) =
    (leading_data 31 is_code (31 * i) ∷ copy (zeros 31) (b ∷ code))
    ∷ chunks_from rounds is_code (i + 1) (drop 31 (b ∷ code))

unfoldable pub split_code : Bytes → List Bytes
unfolding is_code_of chunks_from leading_data
split_code code = chunks_from (length code) (is_code_of code) 0 code

-- `cur = cur[copy(cur, c[1:]):]` for each chunk: what is written of `cur`, and what is left of it.
unfoldable pub merge_into : Bytes → List Bytes → Bytes
merge_into cur [] = cur
merge_into cur (c ∷ chunks) =
    let n = length (drop 1 c) in take n (copy cur (drop 1 c)) ++ merge_into (drop n cur) chunks

unfoldable pub merge : List Bytes → ℕ → Bytes
unfolding merge_into
merge chunks len = merge_into (zeros len) chunks
