-- ===== src/State/Reached.antt =====
-- state.go: the tries of a state are those of histories of writes and commits.
use verkle_trie.Prelude.{
  ℕ, ◌+◌, ◌≡◌, Option, some, >>=-eq-some, ◌>>=◌, List, [], ◌∷◌, Bytes, IsByte, All, bytes_equal,
  length, slice, zeros, drop, be32, Bool-cases, inl, inr, subst, arith,
}
use mathlib.Core.Option.{some-injective}
use verkle_trie.Code.{split_code}
use verkle_trie.Commit.Encoding.{IsBytes32, All-drop}
use verkle_trie.Embedding.{
  get_basic_data_key, get_code_hash_key, get_code_chunk_key, get_storage_key,
}
use verkle_trie.Trie
use verkle_trie.Trie.{Trie, empty, Op, put, commits, step, run}
use verkle_trie.State.{
  Env, basic_data, patch, create_account, set_nonce, set_balance, set_slot, set_chunks, set_code,
  each, apply_to_trie, Update,
}
use verkle_trie.State.Changes.{nothing_required}
use verkle_trie.State.Bytes32.{
  IsTyped, HasTypes, patch-IsBytes32, be32-bytes, split_code-IsBytes32,
  get_basic_data_key-IsBytes32, get_code_hash_key-IsBytes32, get_code_chunk_key-IsBytes32,
  get_storage_key-IsBytes32,
}
use verkle_trie.Trie.Reached.{IsReached, set-IsReached, get-IsBytes32}

each-IsReached :
    (env : Env) {A : Type 0} (P : A → Type 0) (one : Trie env.ipa → A → Option (Trie env.ipa))
    → ((t t' : Trie env.ipa) (a : A) → P a → IsReached t → one t a ≡ some t' → IsReached t')
    → (as' : List A) (t t' : Trie env.ipa) → All P as'
    → IsReached t
    → each env one t as' ≡ some t'
    → IsReached t'
unfolding each
each-IsReached env P one keeps [] t t' h r e = subst IsReached (some-injective _ _ e) r
each-IsReached env P one keeps (a ∷ as') t t' h r e =
    let (t1, first, rest) = >>=-eq-some (one t a) _ e in
    each-IsReached env P one keeps as' t1 t' h.1 (keeps t t1 a h.0 r first) rest

module _ {env : Env} (types : HasTypes env) where
  -- the basic data of an account, rewritten
  rewrite-IsReached :
      (rewrite : Bytes → Bytes) (t t' : Trie env.ipa) (account : Bytes)
      → ((v : Bytes) → IsBytes32 v → IsBytes32 (rewrite v))
      → IsReached t
      → (basic_data env t account >>= λ value.
          Trie.set env.ipa t (get_basic_data_key env.ipa account) (rewrite value))
        ≡ some t'
      → IsReached t'
  rewrite-IsReached rewrite t t' account typed r e =
      let k = get_basic_data_key-IsBytes32 types account in
      let (value, found, e') = >>=-eq-some (basic_data env t account) _ e in
      set-IsReached t t' (get_basic_data_key env.ipa account) (rewrite value) r k
        (typed value (get-IsBytes32 t (get_basic_data_key env.ipa account) value r k found)) e'

  create_account-IsReached :
      (t t' : Trie env.ipa) (account : Bytes)
      → IsReached t
      → create_account env t account ≡ some t'
      → IsReached t'
  unfolding create_account
  create_account-IsReached t t' account r e =
      let key = get_basic_data_key env.ipa account in
      let k = get_basic_data_key-IsBytes32 types account in
      let (value, found, e1) = >>=-eq-some (basic_data env t account) _ e in
      elim (Bool-cases (bytes_equal (slice 4 32 value) (zeros 28))) [
        | inr used ↦ subst IsReached (some-injective _ _ (rw used at e1)) r
        | inl free ↦
            let (t1, first, second) =
              >>=-eq-some (Trie.set env.ipa t key value) _ (rw free at e1) in
            set-IsReached t1 t' (get_code_hash_key env.ipa account) env.empty_code_hash
              (set-IsReached t t1 key value r k (get-IsBytes32 t key value r k found) first)
              (get_code_hash_key-IsBytes32 types account) types.empty_code_hash-bytes second
      ]

  set_nonce-IsReached :
      (t t' : Trie env.ipa) (p : Bytes × Bytes)
      → All IsByte p.1
      → IsReached t
      → set_nonce env t p ≡ some t'
      → IsReached t'
  unfolding set_nonce
  set_nonce-IsReached t t' (account, nonce) h r e =
      rewrite-IsReached (patch 8 16 nonce) t t' account
        (λ v w. patch-IsBytes32 8 16 nonce v (omega arith) (omega arith) h w) r e

  set_balance-IsReached :
      (t t' : Trie env.ipa) (p : Bytes × env.Amount)
      → IsReached t
      → set_balance env t p ≡ some t'
      → IsReached t'
  unfolding set_balance
  set_balance-IsReached t t' (account, balance) r e =
      let low = drop 16 (env.bytes32 balance) in
      rewrite-IsReached (patch 16 32 low) t t' account
        (λ v w.
          patch-IsBytes32 16 32 low v (omega arith) (omega arith)
            (All-drop IsByte 16 (env.bytes32 balance) (types.bytes32-bytes balance).1) w)
        r e

  set_slot-IsReached :
      (t t' : Trie env.ipa) (p : Bytes × Bytes × Bytes)
      → All IsByte p.1 × IsBytes32 p.2
      → IsReached t
      → set_slot env t p ≡ some t'
      → IsReached t'
  unfolding set_slot
  set_slot-IsReached t t' (account, key, value) h r e =
      set-IsReached t t' (get_storage_key env.ipa account key) value r
        (get_storage_key-IsBytes32 types account key h.0) h.1 e

  set_chunks-IsReached :
      (chunks : List Bytes) (t t' : Trie env.ipa) (account : Bytes) (i : ℕ)
      → All IsBytes32 chunks
      → IsReached t
      → set_chunks env chunks t account i ≡ some t'
      → IsReached t'
  unfolding set_chunks
  set_chunks-IsReached [] t t' account i h r e = subst IsReached (some-injective _ _ e) r
  set_chunks-IsReached (chunk ∷ chunks) t t' account i h r e =
      let key = get_code_chunk_key env.ipa account i in
      let (t1, first, rest) = >>=-eq-some (Trie.set env.ipa t key chunk) _ e in
      set_chunks-IsReached chunks t1 t' account (i + 1) h.1
        (set-IsReached t t1 key chunk r (get_code_chunk_key-IsBytes32 types account i) h.0 first)
        rest

  set_code-IsReached :
      (t t' : Trie env.ipa) (p : Bytes × Bytes)
      → All IsByte p.1
      → IsReached t
      → set_code env t p ≡ some t'
      → IsReached t'
  unfolding set_code
  set_code-IsReached t t' (account, code) h r e =
      let key = get_basic_data_key env.ipa account in
      let k = get_basic_data_key-IsBytes32 types account in
      let size = be32 (length code) in
      let (value, found, e1) = >>=-eq-some (basic_data env t account) _ e in
      let (t1, first, e2) = >>=-eq-some (Trie.set env.ipa t key (patch 4 8 size value)) _ e1 in
      let (t2, second, e3) =
        >>=-eq-some (Trie.set env.ipa t1 (get_code_hash_key env.ipa account) (env.keccak256 code)) _
          e2 in
      let r1 =
        set-IsReached t t1 key (patch 4 8 size value) r k
          (patch-IsBytes32 4 8 size value (omega arith) (omega arith) (be32-bytes (length code))
            (get-IsBytes32 t key value r k found))
          first in
      set_chunks-IsReached (split_code code) t2 t' account 0 (split_code-IsBytes32 code h)
        (set-IsReached t1 t2 (get_code_hash_key env.ipa account) (env.keccak256 code) r1
          (get_code_hash_key-IsBytes32 types account) (types.keccak256-bytes code) second)
        e3

  -- `Apply` writes bytes under keys of bytes.
  pub apply_to_trie-IsReached :
      (t t' : Trie env.ipa) (u : Update env)
      → IsTyped u
      → IsReached t
      → apply_to_trie env t u ≡ some t'
      → IsReached t'
  unfolding apply_to_trie
  apply_to_trie-IsReached t t' u h r e =
      let (t1, e1, f1) = >>=-eq-some (each env (create_account env) t u.created_accounts) _ e in
      let (t2, e2, f2) = >>=-eq-some (each env (set_nonce env) t1 u.nonces) _ f1 in
      let (t3, e3, f3) = >>=-eq-some (each env (set_balance env) t2 u.balances) _ f2 in
      let (t4, e4, f4) = >>=-eq-some (each env (set_slot env) t3 u.slots) _ f3 in
      let r1 =
        each-IsReached env (λ _. Unit {0}) (create_account env)
          (λ x y a _. create_account-IsReached x y a) u.created_accounts t t1
          (nothing_required u.created_accounts) r e1 in
      let r2 =
        each-IsReached env (λ p. All IsByte p.1) (set_nonce env) set_nonce-IsReached u.nonces t1 t2
          h.nonces r1 e2 in
      let r3 =
        each-IsReached env (λ _. Unit {0}) (set_balance env)
          (λ x y a _. set_balance-IsReached x y a) u.balances t2 t3 (nothing_required u.balances) r2
          e3 in
      let r4 =
        each-IsReached env (λ p. All IsByte p.1 × IsBytes32 p.2) (set_slot env) set_slot-IsReached
          u.slots t3 t4 h.slots r3 e4 in
      each-IsReached env (λ p. All IsByte p.1) (set_code env) set_code-IsReached u.codes t4 t'
        h.codes r4 f4
