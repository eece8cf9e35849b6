-- ===== src/State/Codes.antt =====
-- state.go: the code of an account, its chunks written by `Apply` and read by `GetCode`.
use verkle_trie.Prelude.{
  ℕ, zero, suc, ◌+◌, ◌/◌, ◌^◌, ◌≤◌, ◌<◌, ◌≡◌, ◌≢◌, refl, ◌∙◌, sym, ap, some, List, [], ◌∷◌, ◌++◌,
  Bytes, be32, be_value, be_value-be32, get_elem?, length, slice, arith,
}
use verkle_trie.Code.{split_code}
use verkle_trie.Code.RoundTrip.{merge-split_code}
use verkle_trie.Code.Chunks.{length-split_code}
use verkle_trie.Embedding.{
  code_chunk_place, get_basic_data_key, get_code_hash_key, get_code_chunk_key,
}
use verkle_trie.Embedding.Layout.{Field, place}
use verkle_trie.Embedding.Keys.{
  IsCollisionFree, get_trie_key-injective, get_basic_data_key-IsKey, get_code_hash_key-IsKey,
  get_code_chunk_key-IsKey,
}
use verkle_trie.Trie.{Trie}
use verkle_trie.State.{
  Env, patch, get_nonce, get_balance, get_code_size, get_code, get_code_hash, read_chunks, set_code,
}
use verkle_trie.State.Patch.{slice-patch, slice-patch_behind}
use verkle_trie.State.View.{HasLengths, assign, Views}
use verkle_trie.State.Changes.{with_chunks, with_code, with_code_header, set_code-Writes}
use verkle_trie.State.Accounts.{
  assign_self, assign_other, get_nonce-Views, get_balance-Views, get_code_size-Views,
}

chunk_number : Field → ℕ
chunk_number Field.basic_data = 0
chunk_number Field.code_hash = 0
chunk_number (Field.code_chunk n) = n
chunk_number (Field.storage key) = 0

module _ (env : Env) (account : Bytes) where
  abbrev pub chunk_key : ℕ → Bytes
  chunk_key n = get_code_chunk_key env.ipa account n

  -- the chunks from `i` on, `n` of them, have keys of their own
  abbrev AreApart : ℕ → ℕ → Type 0
  AreApart i n = (a b : ℕ) → i ≤ a → a < b → b < i + n → chunk_key a ≢ chunk_key b

  pub with_chunks_other :
      (chunks : List Bytes) (f : Bytes → Bytes) (i : ℕ) (k : Bytes)
      → ((n : ℕ) → i ≤ n → n < i + length chunks → k ≢ chunk_key n)
      → with_chunks env chunks f account i k ≡ f k
  with_chunks_other [] f i k h = refl
  with_chunks_other (chunk ∷ chunks) f i k h =
      with_chunks_other chunks (assign f (chunk_key i) chunk) (i + 1) k
        (λ n lo hi. h n (omega arith) (omega arith))
      ∙ assign_other env f (chunk_key i) chunk k (h i (omega arith) (omega arith))

  with_chunks-get :
      (chunks : List Bytes) (f : Bytes → Bytes) (i n : ℕ) (c : Bytes)
      → AreApart i (length chunks)
      → get_elem? chunks n ≡ some c
      → with_chunks env chunks f account i (chunk_key (i + n)) ≡ c
  with_chunks-get [] f i n c apart e = cc
  with_chunks-get (chunk ∷ chunks) f i zero c apart e =
      let same : i + 0 ≡ i = omega arith in
      let g = assign f (chunk_key i) chunk in
      ap (λ m. with_chunks env chunks g account (i + 1) (chunk_key m)) same
      ∙ with_chunks_other chunks g (i + 1) (chunk_key i)
          (λ n lo hi. apart i n (omega arith) (omega arith) (omega arith))
      ∙ assign_self env f (chunk_key i) chunk
      ∙ ground arith
  with_chunks-get (chunk ∷ chunks) f i (suc n) c apart e =
      let same : i + suc n ≡ i + 1 + n = omega arith in
      let g = assign f (chunk_key i) chunk in
      ap (λ m. with_chunks env chunks g account (i + 1) (chunk_key m)) same
      ∙ with_chunks-get chunks g (i + 1) n c
          (λ a b lo lt hi. apart a b (omega arith) lt (omega arith)) e

  -- The loop of `GetCode` reads the chunks that stand there, and then what follows them.
  read_chunks-Views :
      (rounds : ℕ) (chunks : List Bytes) (t : Trie env.ipa) (g : Bytes → Bytes) (i : ℕ)
      → Views env t g
      → length chunks ≤ rounds
      → ((n : ℕ) (c : Bytes) → get_elem? chunks n ≡ some c → g (chunk_key (i + n)) ≡ c)
      → (more : List Bytes) × (read_chunks env rounds t account i ≡ some (chunks ++ more))
  unfolding read_chunks
  read_chunks-Views zero [] t g i v le h = ([], refl)
  read_chunks-Views zero (c ∷ chunks) t g i v le h = absurd (omega arith)
  read_chunks-Views (suc rounds) [] t g i v le h =
      let (more, e) = read_chunks-Views rounds [] t g (i + 1) v (omega arith) (λ n c e. cc) in
      (
        g (chunk_key i) ∷ more,
        rw (v.reads (chunk_key i) (get_code_chunk_key-IsKey env.ipa account i), e) refl,
      )
  read_chunks-Views (suc rounds) (c ∷ chunks) t g i v le h =
      let first : g (chunk_key i) ≡ c =
        let same : i ≡ i + 0 = omega arith in ap (λ m. g (chunk_key m)) same ∙ h 0 c refl in
      let rest : (n : ℕ) (d : Bytes) → get_elem? chunks n ≡ some d → g (chunk_key (i + 1 + n)) ≡ d =
        λ n d e.
          let same : i + 1 + n ≡ i + suc n = omega arith in
          ap (λ m. g (chunk_key m)) same ∙ h (suc n) d e in
      let (more, e) = read_chunks-Views rounds chunks t g (i + 1) v (omega arith) rest in
      (more, rw (v.reads (chunk_key i) (get_code_chunk_key-IsKey env.ipa account i), e, first) refl)

  -- the Pedersen hash does not collide on the tree indices of the account up to `last`
  abbrev pub AreCollisionFree : ℕ → Type 0
  AreCollisionFree last =
      (i j : ℕ) → i ≤ last → j ≤ last → IsCollisionFree env.ipa account i account j

  -- the tree index of chunk `n`
  abbrev pub index_of_chunk : ℕ → ℕ
  index_of_chunk n = (128 + n) / 256

  tree_index_eq : (n : ℕ) → n < 2 ^ 32 → (place (Field.code_chunk n)).tree_index ≡ index_of_chunk n
  unfolding place code_chunk_place
  tree_index_eq n h = omega arith

  chunk_keys-AreApart :
      (n : ℕ) → n < 2 ^ 32 → AreCollisionFree (index_of_chunk n) → AreApart 0 (n + 1)
  unfolding get_code_chunk_key place chunk_number
  chunk_keys-AreApart n h free a b lo lt hi e =
      let at_a = tree_index_eq a (omega arith) in
      let at_b = tree_index_eq b (omega arith) in
      let (_, same) =
        get_trie_key-injective env.ipa account account (Field.code_chunk a) (Field.code_chunk b)
          (omega arith) (omega arith) (free _ _ (omega arith) (omega arith)) e in
      let equal : a ≡ b = ap chunk_number same in omega arith

  basic_data_key-ne-chunk :
      (n : ℕ)
      → n < 2 ^ 32
      → AreCollisionFree (index_of_chunk n)
      → get_basic_data_key env.ipa account ≢ chunk_key n
  unfolding get_basic_data_key get_code_chunk_key place
  basic_data_key-ne-chunk n h free e =
      let at_n = tree_index_eq n h in
      let (_, same) =
        get_trie_key-injective env.ipa account account Field.basic_data (Field.code_chunk n) tt
          (omega arith) (free _ _ (omega arith) (omega arith)) e in
      cc

  code_hash_key-ne-chunk :
      (n : ℕ)
      → n < 2 ^ 32
      → AreCollisionFree (index_of_chunk n)
      → get_code_hash_key env.ipa account ≢ chunk_key n
  unfolding get_code_hash_key get_code_chunk_key place
  code_hash_key-ne-chunk n h free e =
      let at_n = tree_index_eq n h in
      let (_, same) =
        get_trie_key-injective env.ipa account account Field.code_hash (Field.code_chunk n) tt
          (omega arith) (free _ _ (omega arith) (omega arith)) e in
      cc

  basic_data_key-ne-code_hash :
      AreCollisionFree 0 → get_basic_data_key env.ipa account ≢ get_code_hash_key env.ipa account
  unfolding get_basic_data_key get_code_hash_key place
  basic_data_key-ne-code_hash free e =
      let (_, same) =
        get_trie_key-injective env.ipa account account Field.basic_data Field.code_hash tt tt
          (free _ _ (omega arith) (omega arith)) e in
      cc

  abbrev header_value : (Bytes → Bytes) → Bytes → Bytes
  header_value f code = patch 4 8 (be32 (length code)) (f (get_basic_data_key env.ipa account))

  module _ (f : Bytes → Bytes) (code : Bytes) (short : length code < 2 ^ 32)
      (free : AreCollisionFree (index_of_chunk (length code / 31))) where
    abbrev view : Bytes → Bytes
    view = with_code env f (account, code)

    free_upto : (n : ℕ) → n < length (split_code code) → AreCollisionFree (index_of_chunk n)
    free_upto n h i j hi hj =
        let count = length-split_code code in free i j (omega arith) (omega arith)

    view-basic_data : view (get_basic_data_key env.ipa account) ≡ header_value f code
    view-basic_data =
        let key = get_basic_data_key env.ipa account in
        let count = length-split_code code in
        with_chunks_other (split_code code) (with_code_header env f account code) 0 key
          (λ n lo hi. basic_data_key-ne-chunk n (omega arith) (free_upto n (omega arith)))
        ∙ assign_other env (assign f key (header_value f code)) (get_code_hash_key env.ipa account)
            (env.keccak256 code) key
            (basic_data_key-ne-code_hash (λ i j hi hj. free i j (omega arith) (omega arith)))
        ∙ assign_self env f key (header_value f code)

    view-code_hash : view (get_code_hash_key env.ipa account) ≡ env.keccak256 code
    view-code_hash =
        let key = get_code_hash_key env.ipa account in
        let count = length-split_code code in
        with_chunks_other (split_code code) (with_code_header env f account code) 0 key
          (λ n lo hi. code_hash_key-ne-chunk n (omega arith) (free_upto n (omega arith)))
        ∙ assign_self env (assign f (get_basic_data_key env.ipa account) (header_value f code)) key
            (env.keccak256 code)

    view-chunk :
        (n : ℕ) (c : Bytes) → get_elem? (split_code code) n ≡ some c → view (chunk_key (0 + n)) ≡ c
    view-chunk n c e =
        let count = length-split_code code in
        with_chunks-get (split_code code) (with_code_header env f account code) 0 n c
          (λ a b lo lt hi.
            chunk_keys-AreApart (length code / 31) (omega arith) free a b lo lt (omega arith))
          e

    read-view :
        (t' : Trie env.ipa)
        → Views env t' view
        → get_code_size env t' account ≡ some (length code)
        → get_code env t' account ≡ some code
    unfolding get_code
    read-view t' v' size =
        let count = length-split_code code in
        let (more, e) =
          read_chunks-Views (length code / 31 + 1) (split_code code) t' view 0 v' (omega arith)
            view-chunk in
        rw (size, e, merge-split_code code more) refl

    -- A code of less than 2 ^ 32 bytes that `Apply` writes is what `GetCode` returns then, with its
    -- size and its hash; nonce and balance are as before. The hash of the trie keys must not collide
    -- on the tree indices of this account's code.
    pub set_code-get_code :
        HasLengths env
        → (t : Trie env.ipa) → Views env t f
        → (t' : Trie env.ipa) × (set_code env t (account, code) ≡ some t')
          × (get_code env t' account ≡ some code)
          × (get_code_size env t' account ≡ some (length code))
          × (get_code_hash env t' account ≡ some (env.keccak256 code))
          × (get_nonce env t' account ≡ get_nonce env t account)
          × (get_balance env t' account ≡ get_balance env t account)
    unfolding get_code_hash
    set_code-get_code lengths t v =
        let key = get_basic_data_key env.ipa account in
        let old = f key in
        let bytes = be32 (length code) in
        let sized = v.sized key (get_basic_data_key-IsKey env.ipa account) in
        let fits : 8 ≤ length old = omega arith in
        let (t', e, v') = set_code-Writes env lengths t f (account, code) v in
        let size : get_code_size env t' account ≡ some (length code) =
          get_code_size-Views env v' account
          ∙ ap (λ w. some (be_value 0 (slice 4 8 w))) view-basic_data
          ∙ ap (λ w. some (be_value 0 w)) (slice-patch 4 8 bytes old (omega arith) fits refl)
          ∙ ap some (be_value-be32 (length code) ∙ omega arith) in
        (
          t',
          e,
          read-view t' v' size,
          size,
          v'.reads (get_code_hash_key env.ipa account) (get_code_hash_key-IsKey env.ipa account)
              ∙ ap some view-code_hash,
          get_nonce-Views env v' account
              ∙ ap some (
                  ap (slice 8 16) view-basic_data
                  ∙ slice-patch_behind 4 8 bytes old (omega arith) fits 8 16 (omega arith))
              ∙ sym (get_nonce-Views env v account),
          get_balance-Views env v' account
              ∙ ap (λ w. some (env.new_from_bytes w))
                  (ap (slice 16 32) view-basic_data
                    ∙ slice-patch_behind 4 8 bytes old (omega arith) fits 16 32 (omega arith))
              ∙ sym (get_balance-Views env v account),
        )
