-- ===== src/Code/Instructions.antt =====
-- code.go: the array `isCode` marks the bytes where an instruction starts.
use verkle_trie.Prelude.{
  ℕ, zero, suc, ◌+◌, ◌≤◌, ◌<◌, ◌≡◌, ◌↔◌, ◌⊎◌, inl, inr, refl, ◌∙◌, sym, Bool, true, false, ltb,
  ltb→lt, lt→ltb, subst, Bool-cases, ==_iff, ◌==◌, List, Bytes, length, get_or, set, replicate,
  arith, some, ap, leb, ◌&&◌, ◌∷◌, [], ◌-◌, get_elem?, get_elem?_lt, length-set, length-replicate,
  get_or-set_self, get_or-set_ne,
}
use mathlib.Core.Bool.{false≢true}
use mathlib.Core.Option.{some-injective}
use verkle_trie.Code.{push_size, data_size, mark, is_code_of}

-- Reading the code from `i`, instruction by instruction, comes to `j`, as the EVM has it: PUSHn, the
-- byte `0x5f + n` for `n` from 1 to 32, has the `n` bytes behind it as data; any other instruction is
-- one byte, and so is each byte behind the end of the code.
pub data Reaches (code : Bytes) : ℕ → ℕ → Type 0 where
  here : (i : ℕ) → Reaches code i i
  push :
      (i j n : ℕ)
      → get_elem? code i ≡ some (0x5f + n)
      → 1 ≤ n
      → n ≤ 32
      → Reaches code (i + n + 1) j
      → Reaches code i j
  plain :
      (i j op : ℕ)
      → get_elem? code i ≡ some op
      → (op ≤ 0x5f) ⊎ (0x80 ≤ op)
      → Reaches code (i + 1) j
      → Reaches code i j
  padding : (i j : ℕ) → length code ≤ i → Reaches code (i + 1) j → Reaches code i j

Reaches-le : (code : Bytes) {i j : ℕ} → Reaches code i j → i ≤ j
Reaches-le code (here i) = omega arith
Reaches-le code (push i j n e one most r) = omega (arith, Reaches-le code r)
Reaches-le code (plain i j op e other r) = omega (arith, Reaches-le code r)
Reaches-le code (padding i j h r) = omega (arith, Reaches-le code r)

byte_at :
    (code : Bytes) (i op : ℕ)
    → get_elem? code i ≡ some op
    → (i < length code) × (get_or code i 0 ≡ op)
byte_at [] i op e = cc
byte_at (b ∷ code) zero op e = (omega arith, some-injective b op e)
byte_at (b ∷ code) (suc i) op e = let (below, same) = byte_at code i op e in (omega arith, same)

push_size-data : (n : ℕ) → 1 ≤ n → n ≤ 32 → push_size (0x5f + n) ≡ n
unfolding push_size
push_size-data n one most = ground arith

push_size-plain : (op : ℕ) → (op ≤ 0x5f) ⊎ (0x80 ≤ op) → push_size op ≡ 0
unfolding push_size
push_size-plain op (inl low) = ground arith
push_size-plain op (inr high) = ground arith

-- a byte is a push with its data, or an instruction of one byte
push_size-cases :
    (op : ℕ)
    → ((n : ℕ) × (op ≡ 0x5f + n) × (1 ≤ n) × (n ≤ 32) × (push_size op ≡ n))
      ⊎ ((op ≤ 0x5f) ⊎ (0x80 ≤ op)) × (push_size op ≡ 0)
unfolding push_size
push_size-cases op = elim (Bool-cases (leb 0x60 op && leb op 0x7f)) [
  | inl is_push ↦ inl (op - 0x5f, ground arith, ground arith, ground arith, ground arith)
  | inr other ↦ inr (ground arith, ground arith)
]

module _ (code : Bytes) where
  data_size-inside : (i op : ℕ) → get_elem? code i ≡ some op → data_size code i ≡ push_size op
  unfolding data_size
  data_size-inside i op e =
      let (below, same) = byte_at code i op e in rw (lt→ltb i (length code) below, same) refl

  data_size-behind : (i : ℕ) → length code ≤ i → data_size code i ≡ 0
  unfolding data_size
  data_size-behind i h = ground arith

  -- where the loop is next, the reading of the code is next
  data_size_sound : (i j : ℕ) → Reaches code (i + data_size code i + 1) j → Reaches code i j
  data_size_sound i j r = elim (Bool-cases (ltb i (length code))) [
    | inr end ↦
        let behind : length code ≤ i = ground arith in
        padding i j behind
          (subst (λ n. Reaches code n j) (omega (arith, data_size-behind i behind)) r)
    | inl below ↦
        let (op, e) = get_elem?_lt code i (ltb→lt i _ below) in
        let size = data_size-inside i op e in
        elim (push_size-cases op) [
          | inl (n, is_push, one, most, pushed) ↦
              push i j n (e ∙ ap some is_push) one most
                (subst (λ n. Reaches code n j) (omega arith) r)
          | inr (other, none_pushed) ↦
              plain i j op e other (subst (λ n. Reaches code n j) (omega arith) r)
        ]
  ]

  data_size_complete :
      (i j : ℕ) → Reaches code i j → (i ≡ j) ⊎ Reaches code (i + data_size code i + 1) j
  data_size_complete i j (here _) = inl refl
  data_size_complete i j (push _ _ n e one most r) = inr (
      subst (λ n. Reaches code n j)
        (omega (arith, data_size-inside i _ e, push_size-data n one most)) r)
  data_size_complete i j (plain _ _ op e other r) = inr (
      subst (λ n. Reaches code n j)
        (omega (arith, data_size-inside i op e, push_size-plain op other)) r)
  data_size_complete i j (padding _ _ h r) =
      inr (subst (λ n. Reaches code n j) (omega (arith, data_size-behind i h)) r)

module _ (code : Bytes) where
  length-mark :
      (rounds : ℕ) (is_code : List Bool) (i : ℕ)
      → length (mark rounds code is_code i) ≡ length is_code
  unfolding mark
  length-mark zero is_code i = refl
  length-mark (suc rounds) is_code i = elim (Bool-cases (ltb i (length is_code))) [
    | inl more ↦ rw more (length-mark rounds (set is_code i true) _ ∙ length-set is_code i true)
    | inr done ↦ rw done
  ]

  mark_sound :
      (rounds : ℕ) (is_code : List Bool) (i j : ℕ)
      → get_or (mark rounds code is_code i) j false ≡ true
      → (get_or is_code j false ≡ true) ⊎ Reaches code i j
  unfolding mark
  mark_sound zero is_code i j h = inl h
  mark_sound (suc rounds) is_code i j h = elim (Bool-cases (ltb i (length is_code))) [
    | inr done ↦ inl (rw done at h)
    | inl more ↦ elim (mark_sound rounds (set is_code i true) _ j (rw more at h)) [
      | inr r ↦ inr (data_size_sound code i j r)
      | inl old ↦ elim (Bool-cases (i == j)) [
        | inl same ↦ inr (subst (λ k. Reaches code i k) ((==_iff i j).0 same) (here i))
        | inr other ↦ inl (sym (get_or-set_ne is_code i j true false (ground arith)) ∙ old)
      ]
    ]
  ]

  set-true :
      (is_code : List Bool) (i j : ℕ)
      → i < length is_code
      → i ≡ j
      → get_or (set is_code i true) j false ≡ true
  set-true is_code i j h e = rw (← e) (get_or-set_self is_code i true false h)

  mark-keeps :
      (rounds : ℕ) (is_code : List Bool) (i j : ℕ)
      → get_or is_code j false ≡ true
      → get_or (mark rounds code is_code i) j false ≡ true
  unfolding mark
  mark-keeps zero is_code i j h = h
  mark-keeps (suc rounds) is_code i j h = elim (Bool-cases (ltb i (length is_code))) [
    | inr done ↦ rw done h
    | inl more ↦ rw more (
        mark-keeps rounds (set is_code i true) _ j (elim (Bool-cases (i == j)) [
          | inr other ↦ get_or-set_ne is_code i j true false (ground arith) ∙ h
          | inl same ↦ set-true is_code i j (ltb→lt i _ more) ((==_iff i j).0 same)
        ]))
  ]

  mark_complete :
      (rounds : ℕ) (is_code : List Bool) (i j : ℕ)
      → length is_code ≤ i + rounds
      → j < length is_code
      → Reaches code i j
      → get_or (mark rounds code is_code i) j false ≡ true
  unfolding mark
  mark_complete zero is_code i j enough h r = absurd (omega (arith, Reaches-le code r))
  mark_complete (suc rounds) is_code i j enough h r =
      rw (lt→ltb i (length is_code) (omega (arith, Reaches-le code r)))
        (elim (data_size_complete code i j r) [
          | inl same ↦
              mark-keeps rounds (set is_code i true) _ j (set-true is_code i j (omega arith) same)
          | inr next ↦
              mark_complete rounds (set is_code i true) _ j
                (omega (arith, length-set is_code i true))
                (omega (arith, length-set is_code i true)) next
        ])

get_or-replicate : (n j : ℕ) → get_or (replicate n false) j false ≡ false
get_or-replicate zero j = refl
get_or-replicate (suc n) zero = refl
get_or-replicate (suc n) (suc j) = get_or-replicate n j

-- Within the code and the 30 bytes after it, `isCode` marks exactly the bytes that reading the code
-- from its first byte comes to, where a PUSHn has `n` bytes of data.
pub is_code_of_iff :
    (code : Bytes) (j : ℕ)
    → j < length code + 30
    → (get_or (is_code_of code) j false ≡ true) ↔ Reaches code 0 j
unfolding is_code_of
is_code_of_iff code j h =
    let n = length code + 30 in
    let wide = length-replicate n false in
    (
      λ marked. elim (mark_sound code n (replicate n false) 0 j marked) [
        | inl old ↦ absurd (false≢true (sym (get_or-replicate n j) ∙ old))
        | inr r ↦ r
      ],
      λ r. mark_complete code n (replicate n false) 0 j (omega arith) (omega arith) r,
    )

pub length-is_code_of : (code : Bytes) → length (is_code_of code) ≡ length code + 30
unfolding is_code_of
length-is_code_of code =
    length-mark code (length code + 30) (replicate (length code + 30) false) 0
    ∙ length-replicate (length code + 30) false
