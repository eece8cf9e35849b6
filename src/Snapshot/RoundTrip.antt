-- ===== src/Snapshot/RoundTrip.antt =====
-- state.go: what `deserializeTrie` makes of any bytes, and of those that `serializeTrie` writes.
use verkle_trie.Prelude.{
  ℕ, zero, suc, ◌+◌, ◌*◌, ◌^◌, ◌≤◌, ◌<◌, ◌≡◌, ◌↔◌, refl, ◌∙◌, ap, true, false, ◌==◌, Option, none,
  some, ◌>>=◌, List, [], ◌∷◌, ◌++◌, Bytes, be_value, be32, be_value-be32, length, take, drop, slice,
  copy, zeros, ltb, ltb→lt, ==_iff, Bool-cases, inl, inr, All, arith, map, length-append,
  length-copy, take-append_le, drop-append_ge, copy_full, take_all, le→ltb, ◌-◌,
}
use verkle_trie.Commit.{Ipa}
use verkle_trie.Node.{zero_bytes32}
use verkle_trie.Node.Shape.{IsKey}
use verkle_trie.Trie
use verkle_trie.Trie.{Trie, Op, put, run}
use verkle_trie.Trie.Laws.{IsValid}
use verkle_trie.Trie.History.{latest, HasKey, run-eq-latest}
use verkle_trie.Witness.{Storage}
use verkle_trie.Snapshot.{
  Failure, serialize_pairs, serialize_entries, restore_entries, deserialize_trie, too_short,
  wrong_length,
}

-- the writes that the bytes stand for
unfoldable pub writes_of : ℕ → Bytes → List Op
writes_of zero bytes = []
writes_of (suc n) bytes =
    put (copy (zeros 32) (slice 0 32 bytes)) (copy (zeros 32) (slice 32 64 bytes))
    ∷ writes_of n (drop 64 bytes)

-- the number of entries that the bytes announce
abbrev pub announced : Bytes → ℕ
announced bytes = be_value 0 (slice 0 4 bytes)

-- The writes have 32-byte keys, whatever the bytes are.
writes_of-HasKey : (n : ℕ) (bytes : Bytes) → All HasKey (writes_of n bytes)
unfolding writes_of
writes_of-HasKey zero bytes = tt
writes_of-HasKey (suc n) bytes =
    (length-copy (zeros 32) (slice 0 32 bytes), writes_of-HasKey n (drop 64 bytes))

-- a key and a value in front of other bytes
cut_pair :
    (key value rest : Bytes)
    → length key ≡ 32
    → length value ≡ 32
    → (slice 0 32 (key ++ (value ++ rest)) ≡ key)
      × (slice 32 64 (key ++ (value ++ rest)) ≡ value)
      × (drop 64 (key ++ (value ++ rest)) ≡ rest)
cut_pair key value rest h h' =
    let over : 32 - length key ≡ 0 = omega arith in
    let over64 : 64 - length key ≡ 32 = omega arith in
    let over' : 32 - length value ≡ 0 = omega arith in
    (
      take-append_le 32 key (value ++ rest) (omega arith) ∙ take_all 32 key (omega arith),
      ap (take 32) (
            drop-append_ge 32 key (value ++ rest) (omega arith)
            ∙ ap (λ k. drop k (value ++ rest)) over)
          ∙ take-append_le 32 value rest (omega arith)
          ∙ take_all 32 value (omega arith),
      drop-append_ge 64 key (value ++ rest) (omega arith)
          ∙ ap (λ k. drop k (value ++ rest)) over64
          ∙ drop-append_ge 32 value rest (omega arith)
          ∙ ap (λ k. drop k rest) over',
    )

-- an entry of two arrays of 32 bytes
abbrev pub IsEntry : Bytes × Bytes → Type 0
IsEntry (key, value) = (length key ≡ 32) × (length value ≡ 32)

abbrev pub put_entry : Bytes × Bytes → Op
put_entry (key, value) = put key value

pub entries-HasKey : (entries : Storage) → All IsEntry entries → All HasKey (map put_entry entries)
entries-HasKey [] h = tt
entries-HasKey ((key, value) ∷ entries) h = (h.0.0, entries-HasKey entries h.1)

writes_of-serialize_pairs :
    (entries : Storage)
    → All IsEntry entries
    → writes_of (length entries) (serialize_pairs entries) ≡ map put_entry entries
unfolding writes_of serialize_pairs
writes_of-serialize_pairs [] h = refl
writes_of-serialize_pairs ((key, value) ∷ entries) h =
    let same_key : copy (zeros 32) key ≡ key = copy_full (zeros 32) key (omega (arith, h.0.0)) in
    let same_value : copy (zeros 32) value ≡ value =
      copy_full (zeros 32) value (omega (arith, h.0.1)) in
    let (first, second, rest) = cut_pair key value (serialize_pairs entries) h.0.0 h.0.1 in
    rw (same_key, same_value, first, second, rest, same_key, same_value)
      (ap (λ ops. put key value ∷ ops) (writes_of-serialize_pairs entries h.1))

length-serialize_pairs :
    (entries : Storage) → length (serialize_pairs entries) ≡ length entries * 64
unfolding serialize_pairs
length-serialize_pairs [] = refl
length-serialize_pairs ((key, value) ∷ entries) = omega (
  arith,
  length-append (copy (zeros 32) key) (copy (zeros 32) value ++ serialize_pairs entries),
  length-append (copy (zeros 32) value) (serialize_pairs entries),
  length-copy (zeros 32) key,
  length-copy (zeros 32) value,
  length-serialize_pairs entries,
)

module _ {ipa : Ipa} where
  pub restore_entries-run :
      (n : ℕ) (t : Trie ipa) (bytes : Bytes)
      → restore_entries ipa n t bytes ≡ run ipa t (writes_of n bytes)
  unfolding restore_entries run writes_of
  restore_entries-run zero t bytes = refl
  restore_entries-run (suc n) t bytes =
      ap
        (λ f.
          Trie.set ipa t (copy (zeros 32) (slice 0 32 bytes)) (copy (zeros 32) (slice 32 64 bytes))
          >>= f)
        (λ i t'. restore_entries-run n t' (drop 64 bytes) i)

  -- `deserializeTrie` does not panic on any bytes, and the trie is valid afterwards. It succeeds
  -- exactly if the bytes have the announced length.
  pub deserialize_trie-total :
      (t : Trie ipa) (bytes : Bytes)
      → IsValid t
      → (t' : Trie ipa) × (error : Option Failure) × (deserialize_trie ipa t bytes
          ≡ some (t', error))
        × IsValid t'
        × ((error ≡ none) ↔ ((4 ≤ length bytes) × (length bytes ≡ 4 + announced bytes * 64)))
  unfolding deserialize_trie
  deserialize_trie-total t bytes v =
      let n = announced bytes in
      let (u, e, w, _) =
        run-eq-latest {ipa = ipa} (writes_of n (drop 4 bytes))
          (writes_of-HasKey n (drop 4 bytes)) in
      elim (Bool-cases (ltb (length bytes) 4)) [
        | inl short ↦
            let h = ltb→lt (length bytes) 4 short in
            (t, some too_short, rw short refl, v, (λ e. cc, λ h'. absurd (omega arith)))
        | inr long ↦ elim (Bool-cases (length bytes == 4 + n * 64)) [
          | inl same ↦
              let eq = (==_iff (length bytes) (4 + n * 64)).0 same in
              (
                u,
                none,
                rw (long, same, restore_entries-run n (Trie.empty ipa) (drop 4 bytes), e) refl,
                w,
                (λ e'. (omega arith, eq), λ h. refl),
              )
          | inr other ↦ (
            t,
            some wrong_length,
            rw (long, other) refl,
            v,
            (λ e. cc, λ h. let eq = (==_iff (length bytes) (4 + n * 64)).1 h.1 in cc),
          )
        ]
      ]

  deserialize_trie_lem :
      (t u : Trie ipa) (bytes : Bytes) (n : ℕ)
      → ltb (length bytes) 4 ≡ false
      → announced bytes ≡ n
      → (length bytes == 4 + n * 64) ≡ true
      → restore_entries ipa n (Trie.empty ipa) (drop 4 bytes) ≡ some u
      → deserialize_trie ipa t bytes ≡ some (u, none)
  unfolding deserialize_trie
  deserialize_trie_lem t u bytes n long count exact restored =
      rw (long, count, exact, restored) refl

  -- The bytes of some entries are restored as their writes.
  pub deserialize_trie-run :
      (t u : Trie ipa) (entries : Storage)
      → All IsEntry entries
      → length entries < 2 ^ 32
      → run ipa (Trie.empty ipa) (map put_entry entries) ≡ some u
      → deserialize_trie ipa t (serialize_entries entries) ≡ some (u, none)
  unfolding serialize_entries
  deserialize_trie-run t u entries h short e =
      let n = length entries in
      let bytes = serialize_pairs entries in
      let count : be_value 0 (be32 n) ≡ n = be_value-be32 n ∙ omega arith in
      let exact : (length (be32 n ++ bytes) == 4 + n * 64) ≡ true =
        (==_iff (length (be32 n ++ bytes)) (4 + n * 64)).1
          (omega (arith, length-append (be32 n) bytes, length-serialize_pairs entries)) in
      let restored : restore_entries ipa n (Trie.empty ipa) bytes ≡ some u =
        restore_entries-run n (Trie.empty ipa) bytes
        ∙ ap (run ipa (Trie.empty ipa)) (writes_of-serialize_pairs entries h)
        ∙ e in
      deserialize_trie_lem t u (be32 n ++ bytes) n
        (le→ltb (length (be32 n ++ bytes)) 4 (omega arith)) count exact restored

  -- `deserializeTrie` of the bytes that `serializeTrie` writes for less than 2 ^ 32 entries of 32
  -- bytes succeeds, with a valid trie in which `Get` returns the value of the entry, and 32 zero
  -- bytes for a key without one.
  pub deserialize_trie-serialize_entries :
      (t : Trie ipa) (entries : Storage)
      → All IsEntry entries
      → length entries < 2 ^ 32
      → (t' : Trie ipa) × (deserialize_trie ipa t (serialize_entries entries) ≡ some (t', none))
        × IsValid t'
        × ((k : Bytes)
            → IsKey k
            → Trie.get ipa t' k ≡ latest (some zero_bytes32) (map put_entry entries) k)
  deserialize_trie-serialize_entries t entries h short =
      let (u, e, w, reads) =
        run-eq-latest {ipa = ipa} (map put_entry entries) (entries-HasKey entries h) in
      (u, deserialize_trie-run t u entries h short e, w, reads)
