-- ===== src/State/Changes.antt =====
-- state.go: `Apply` as changes of a function from keys to values.
use verkle_trie.Prelude.{
  ℕ, ◌+◌, ◌≡◌, refl, Option, ◌>>=◌, List, [], ◌∷◌, Bytes, bytes_equal, be32, zeros, length, drop,
  slice, if◌then◌else◌, arith, Bool-cases, inl, inr, All,
}
use verkle_trie.Code.{split_code}
use verkle_trie.Code.Chunks.{split_code-lengths}
use verkle_trie.Embedding.{
  get_basic_data_key, get_code_hash_key, get_code_chunk_key, get_storage_key,
}
use verkle_trie.Embedding.Keys.{
  get_basic_data_key-IsKey, get_code_hash_key-IsKey, get_code_chunk_key-IsKey,
  get_storage_key-IsKey,
}
use verkle_trie.Trie
use verkle_trie.Trie.{Trie}
use verkle_trie.State.{
  Env, Update, patch, basic_data, create_account, set_nonce, set_balance, set_slot, set_chunks,
  set_code, each, apply_to_trie,
}
use verkle_trie.State.Patch.{length-patch}
use verkle_trie.State.View.{HasLengths, assign, changes, Views, Writes, set-Writes, each-Writes}

pub nothing_required : {A : Type 0} (as' : List A) → All (λ _. Unit {0}) as'
nothing_required [] = tt
nothing_required (a ∷ as') = (tt, nothing_required as')

module _ (env : Env) where
  -- The value of the basic data of an account is rewritten.
  abbrev pub rewrite_basic_data : (Bytes → Bytes) → (Bytes → Bytes) → Bytes → Bytes → Bytes
  rewrite_basic_data rewrite f account =
      let key = get_basic_data_key env.ipa account in assign f key (rewrite (f key))

  abbrev pub created : (Bytes → Bytes) → Bytes → Bytes → Bytes
  created f account =
      if bytes_equal (slice 4 32 (f (get_basic_data_key env.ipa account))) (zeros 28)
      then assign (rewrite_basic_data (λ v. v) f account) (get_code_hash_key env.ipa account)
          env.empty_code_hash
      else f

  abbrev pub with_nonce : (Bytes → Bytes) → Bytes × Bytes → Bytes → Bytes
  with_nonce f (account, nonce) = rewrite_basic_data (patch 8 16 nonce) f account

  abbrev pub with_balance : (Bytes → Bytes) → Bytes × env.Amount → Bytes → Bytes
  with_balance f (account, balance) =
      rewrite_basic_data (patch 16 32 (drop 16 (env.bytes32 balance))) f account

  abbrev pub with_slot : (Bytes → Bytes) → Bytes × Bytes × Bytes → Bytes → Bytes
  with_slot f (account, key, value) = assign f (get_storage_key env.ipa account key) value

  abbrev pub with_chunks : List Bytes → (Bytes → Bytes) → Bytes → ℕ → Bytes → Bytes
  with_chunks [] f account i = f
  with_chunks (chunk ∷ chunks) f account i =
      with_chunks chunks (assign f (get_code_chunk_key env.ipa account i) chunk) account (i + 1)

  -- the code's size and hash
  abbrev pub with_code_header : (Bytes → Bytes) → Bytes → Bytes → Bytes → Bytes
  with_code_header f account code =
      assign (rewrite_basic_data (patch 4 8 (be32 (length code))) f account)
        (get_code_hash_key env.ipa account) (env.keccak256 code)

  abbrev pub with_code : (Bytes → Bytes) → Bytes × Bytes → Bytes → Bytes
  with_code f (account, code) =
      with_chunks (split_code code) (with_code_header f account code) account 0

  -- what `Apply` does: accounts, nonces, balances, slots and codes, in this order
  unfoldable pub applied : (Bytes → Bytes) → Update env → Bytes → Bytes
  unfolding changes
  applied f update =
      changes with_code
        (changes with_slot
          (changes with_balance
            (changes with_nonce (changes created f update.created_accounts) update.nonces)
            update.balances)
          update.slots)
        update.codes

  each_any-Writes :
      {A : Type 0} {step : Trie env.ipa → A → Option (Trie env.ipa)}
      {change : (Bytes → Bytes) → A → Bytes → Bytes}
      → ((t : Trie env.ipa) (f : Bytes → Bytes) (a : A)
          → Views env t f
          → Writes env (step t a) (change f a))
      → (as' : List A) {t : Trie env.ipa} {f : Bytes → Bytes} → Views env t f
      → Writes env (each env step t as') (changes change f as')
  each_any-Writes one as' v =
      each-Writes env (λ _. Unit {0}) _ _ (λ t f a v _. one t f a v) as' _ _ v
        (nothing_required as')

  module _ (lengths : HasLengths env) where
    pub rewrite-Writes :
        (rewrite : Bytes → Bytes) (t : Trie env.ipa) (f : Bytes → Bytes) (account : Bytes)
        → Views env t f
        → ((v : Bytes) → length v ≡ 32 → length (rewrite v) ≡ 32)
        → Writes env
            (basic_data env t account >>= λ value.
              Trie.set env.ipa t (get_basic_data_key env.ipa account) (rewrite value))
            (rewrite_basic_data rewrite f account)
    rewrite-Writes rewrite t f account v h =
        let key = get_basic_data_key env.ipa account in
        let k = get_basic_data_key-IsKey env.ipa account in
        rw (v.reads key k)
          (set-Writes env t f key (rewrite (f key)) v k (h (f key) (v.sized key k)))

    pub create_account-Writes :
        (t : Trie env.ipa) (f : Bytes → Bytes) (account : Bytes)
        → Views env t f
        → Writes env (create_account env t account) (created f account)
    unfolding create_account
    create_account-Writes t f account v =
        let key = get_basic_data_key env.ipa account in
        let k = get_basic_data_key-IsKey env.ipa account in
        let (t', e, v') = set-Writes env t f key (f key) v k (v.sized key k) in
        let (t'', e', v'') =
          set-Writes env t' (assign f key (f key)) (get_code_hash_key env.ipa account)
            env.empty_code_hash v' (get_code_hash_key-IsKey env.ipa account)
            lengths.length-empty_code_hash in
        elim (Bool-cases (bytes_equal (slice 4 32 (f key)) (zeros 28))) [
          | inl empty ↦ rw (v.reads key k, empty, e) (t'', e', v'')
          | inr used ↦ rw (v.reads key k, used) (t, refl, v)
        ]

    pub set_nonce-Writes :
        (t : Trie env.ipa) (f : Bytes → Bytes) (p : Bytes × Bytes)
        → Views env t f
        → Writes env (set_nonce env t p) (with_nonce f p)
    unfolding set_nonce
    set_nonce-Writes t f (account, nonce) v =
        rewrite-Writes (patch 8 16 nonce) t f account v
          (λ w size. omega (arith, length-patch 8 16 nonce w (omega arith) (omega arith)))

    pub set_balance-Writes :
        (t : Trie env.ipa) (f : Bytes → Bytes) (p : Bytes × env.Amount)
        → Views env t f
        → Writes env (set_balance env t p) (with_balance f p)
    unfolding set_balance
    set_balance-Writes t f (account, balance) v =
        let amount = drop 16 (env.bytes32 balance) in
        rewrite-Writes (patch 16 32 amount) t f account v
          (λ w size. omega (arith, length-patch 16 32 amount w (omega arith) (omega arith)))

    pub set_slot-Writes :
        (t : Trie env.ipa) (f : Bytes → Bytes) (p : Bytes × Bytes × Bytes)
        → Views env t f
        → length p.2 ≡ 32
        → Writes env (set_slot env t p) (with_slot f p)
    unfolding set_slot
    set_slot-Writes t f (account, key, value) v h =
        set-Writes env t f (get_storage_key env.ipa account key) value v
          (get_storage_key-IsKey env.ipa account key) h

    pub set_chunks-Writes :
        (chunks : List Bytes) (t : Trie env.ipa) (f : Bytes → Bytes) (account : Bytes) (i : ℕ)
        → Views env t f
        → All (λ c. length c ≡ 32) chunks
        → Writes env (set_chunks env chunks t account i) (with_chunks chunks f account i)
    unfolding set_chunks
    set_chunks-Writes [] t f account i v h = (t, refl, v)
    set_chunks-Writes (chunk ∷ chunks) t f account i v h =
        let key = get_code_chunk_key env.ipa account i in
        let (u, e, w) =
          set-Writes env t f key chunk v (get_code_chunk_key-IsKey env.ipa account i) h.0 in
        rw e (set_chunks-Writes chunks u (assign f key chunk) account (i + 1) w h.1)

    pub set_code-Writes :
        (t : Trie env.ipa) (f : Bytes → Bytes) (p : Bytes × Bytes)
        → Views env t f
        → Writes env (set_code env t p) (with_code f p)
    unfolding set_code
    set_code-Writes t f (account, code) v =
        let key = get_basic_data_key env.ipa account in
        let k = get_basic_data_key-IsKey env.ipa account in
        let value = patch 4 8 (be32 (length code)) (f key) in
        let (t1, e1, v1) = set-Writes env t f key value v k (
          let s = v.sized key k in
          omega
            (arith, length-patch 4 8 (be32 (length code)) (f key) (omega arith) (omega arith))) in
        let (t2, e2, v2) =
          set-Writes env t1 (assign f key value) (get_code_hash_key env.ipa account)
            (env.keccak256 code) v1 (get_code_hash_key-IsKey env.ipa account)
            (lengths.length-keccak256 code) in
        rw (v.reads key k, e1, e2)
          (set_chunks-Writes (split_code code) t2 (with_code_header f account code) account 0 v2
            (split_code-lengths code))

    -- `Apply` on a valid trie does not panic, where the slots hold 32-byte values, and its changes of
    -- the values are those of `applied`.
    pub apply_to_trie-Writes :
        (t : Trie env.ipa) (f : Bytes → Bytes) (update : Update env)
        → Views env t f
        → All (λ p. length p.2 ≡ 32) update.slots
        → Writes env (apply_to_trie env t update) (applied f update)
    unfolding apply_to_trie applied
    apply_to_trie-Writes t f u v h =
        let (t1, e1, v1) = each_any-Writes create_account-Writes u.created_accounts v in
        let (t2, e2, v2) = each_any-Writes set_nonce-Writes u.nonces v1 in
        let (t3, e3, v3) = each_any-Writes set_balance-Writes u.balances v2 in
        let (t4, e4, v4) =
          each-Writes env (λ p. length p.2 ≡ 32) (set_slot env) with_slot set_slot-Writes u.slots t3
            _ v3 h in
        rw (e1, e2, e3, e4) (each_any-Writes set_code-Writes u.codes v4)
