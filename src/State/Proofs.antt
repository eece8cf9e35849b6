-- ===== src/State/Proofs.antt =====
-- state.go: `GetHash`, `getAccountInfo` and `CreateWitnessProof`, and what the proof answers.
use verkle_trie.Prelude.{
  ◌≡◌, refl, ◌∙◌, ap, Bool, true, false, not, Option, none, some, ◌>>=◌, List, [], ◌∷◌, Bytes,
  bytes_equal, bytes_equal-eq, bytes_equal_refl, Bool-cases, inl, inr, slice, zeros, if◌then◌else◌,
}
use verkle_trie.Commit.{compress}
use verkle_trie.Embedding.{get_storage_key, get_code_hash_key}
use verkle_trie.Embedding.Keys.{get_storage_key-IsKey, get_code_hash_key-IsKey}
use verkle_trie.Trie
use verkle_trie.Trie.{Trie}
use verkle_trie.Trie.Laws.{commit_lem}
use verkle_trie.State.{Env, basic_data, get_balance, get_nonce, get_code_hash, get_storage}
use verkle_trie.State.View.{Views}
use verkle_trie.State.Accounts.{basic, basic_data-Views, get_nonce-Views, get_balance-Views}
use verkle_trie.Witness
use verkle_trie.Witness.{Amounts, Storage, Proof, lookup, insert, get_state, value_or_zero}
use verkle_trie.Witness.Extracts.{contains, lookup-insert}

-- the package amount, as the proofs call it
abbrev pub amounts : Env → Amounts
amounts env = record {
  Amount = env.Amount;
  new_amount = env.new_amount;
  equal = env.equal_amounts;
  bytes32 = env.bytes32;
}

pub record AccountInfo (env : Env) : Type 0 where
  pub balance : env.Amount
  pub nonce : Bytes
  pub code_hash : Bytes

module _ (env : Env) where
  unfoldable pub get_hash : Trie env.ipa → Bytes × Trie env.ipa
  get_hash t = let r = Trie.commit env.ipa t in (compress env.ipa r.0, r.1)

  unfoldable pub get_account_info : Trie env.ipa → Bytes → Option (AccountInfo env × Bool)
  get_account_info t address = do
    value ← basic_data env t address
    balance ← get_balance env t address
    nonce ← get_nonce env t address
    code_hash ← get_code_hash env t address
    some (
      record { balance = balance; nonce = nonce; code_hash = code_hash },
      not (bytes_equal (slice 8 32 value) (zeros 24)),
    )

  unfoldable pub collect_storage : Trie env.ipa → Bytes → List Bytes → Storage → Option Storage
  collect_storage t address [] storage = some storage
  collect_storage t address (key ∷ keys) storage = do
    value ← get_storage env t address key
    collect_storage t address keys (insert storage key value)

  unfoldable pub create_witness_proof :
      Trie env.ipa → Bytes → List Bytes → Option (Trie env.ipa × Proof (amounts env))
  unfolding get_hash get_account_info collect_storage
  create_witness_proof t address keys = do
    let hash = get_hash t
    info ← get_account_info hash.1 address
    storage ← collect_storage hash.1 address keys []
    some (
      hash.1,
      record {
        root_hash = hash.0;
        address = address;
        balance = if info.1 then info.0.balance else env.zero_amount;
        nonce = if info.1 then info.0.nonce else zeros 8;
        code_hash = if info.1 then info.0.code_hash else zeros 32;
        storage = storage;
        exists_ = info.1;
      },
    )

  -- the account has a nonce or a balance
  abbrev pub has_account : (Bytes → Bytes) → Bytes → Bool
  has_account f address = not (bytes_equal (slice 8 32 (basic env f address)) (zeros 24))

  collect_storage-Views :
      {t : Trie env.ipa} {f : Bytes → Bytes}
      → Views env t f
      → (address : Bytes) (keys : List Bytes) (storage : Storage)
      → (r : Storage) × (collect_storage t address keys storage ≡ some r)
        × ((k : Bytes)
            → lookup r k ≡ (
                if contains keys k
                then some (f (get_storage_key env.ipa address k))
                else lookup storage k))
  unfolding collect_storage get_storage contains
  collect_storage-Views v address [] storage = (storage, refl, λ k. refl)
  collect_storage-Views {f = f} v address (key ∷ keys) storage =
      let place = get_storage_key env.ipa address key in
      let reads = v.reads place (get_storage_key-IsKey env.ipa address key) in
      let (r, e, found) = collect_storage-Views v address keys (insert storage key (f place)) in
      (
        r,
        rw reads e,
        λ k. found k ∙ (elim (Bool-cases (contains keys k)) [
          | inl later ↦ elim (Bool-cases (bytes_equal key k)) [
            | inl h ↦ rw (later, h) refl
            | inr h ↦ rw (later, h) refl
          ]
          | inr no_more ↦ elim (Bool-cases (bytes_equal key k)) [
            | inl h ↦
                let same = bytes_equal-eq key k h in
                rw (no_more, h, lookup-insert storage key (f place) k, h)
                  (ap (λ x. some (f (get_storage_key env.ipa address x))) same)
            | inr h ↦ rw (no_more, h, lookup-insert storage key (f place) k, h) refl
          ]
        ]),
      )

  answer :
      (b : Bool) (v : Bytes)
      → value_or_zero (if b then some v else none) ≡ (if b then (v, true) else (zeros 32, false))
  answer true v = refl
  answer false v = refl

  field :
      {A : Type 0} (b : Bool) (zero_field x y : A)
      → ◌≡◌ {A = A × Bool}
          (if not b then (zero_field, false) else ((if b then x else y), true))
          (if b then (x, true) else (zero_field, false))
  field true zero_field x y = refl
  field false zero_field x y = refl

  pub commit-Views :
      {t : Trie env.ipa} {f : Bytes → Bytes} → Views env t f → Views env (get_hash t).1 f
  unfolding get_hash
  commit-Views {t = t} v =
      let (_, valid, gets, _) = commit_lem t v.valid in
      record { valid = valid; reads = λ k h. gets k ∙ v.reads k h; sized = v.sized }

  -- the hash is stable
  pub get_hash-get_hash :
      (t : Trie env.ipa) (f : Bytes → Bytes)
      → Views env t f
      → (get_hash (get_hash t).1).0 ≡ (get_hash t).0
  unfolding get_hash
  get_hash-get_hash t f v =
      let (_, _, _, again) = commit_lem t v.valid in ap (compress env.ipa) again

  -- `CreateWitnessProof` on a valid trie does not panic and leaves its values as they are. For the
  -- root hash of the trie and the address, `GetState` of the proof returns the value of each slot
  -- that was asked for and nothing for other slots, and `GetNonce` and `GetBalance` return nonce and
  -- balance where the account has one that is not zero, and nothing where it has not.
  pub create_witness_proof_lem :
      (t : Trie env.ipa) (f : Bytes → Bytes) (address : Bytes) (keys : List Bytes)
      → Views env t f
      → (t' : Trie env.ipa) × (p : Proof (amounts env)) × (create_witness_proof t address keys
          ≡ some (t', p))
        × Views env t' f
        × ((k : Bytes)
            → get_state (amounts env) p (get_hash t).0 address k ≡ (
                if contains keys k
                then (f (get_storage_key env.ipa address k), true)
                else (zeros 32, false)))
        × (Witness.get_nonce (amounts env) p (get_hash t).0 address ≡ (
            if has_account f address
            then (slice 8 16 (basic env f address), true)
            else (zeros 8, false)))
        × (Witness.get_balance (amounts env) p (get_hash t).0 address ≡ (
            if has_account f address
            then (env.new_from_bytes (slice 16 32 (basic env f address)), true)
            else (env.new_amount, false)))
  unfolding create_witness_proof get_account_info get_code_hash get_state Witness.get_nonce
      Witness.get_balance lookup
  create_witness_proof_lem t f address keys v =
      let v' = commit-Views v in
      let t' = (get_hash t).1 in
      let (storage, e, found) = collect_storage-Views v' address keys [] in
      let hash_key = get_code_hash_key env.ipa address in
      let hash = v'.reads hash_key (get_code_hash_key-IsKey env.ipa address) in
      let b = has_account f address in
      let root = bytes_equal_refl (get_hash t).0 in
      let same = bytes_equal_refl address in
      (
        t',
        record {
          root_hash = (get_hash t).0;
          address = address;
          balance =
              if b then env.new_from_bytes (slice 16 32 (basic env f address)) else env.zero_amount;
          nonce = if b then slice 8 16 (basic env f address) else zeros 8;
          code_hash = if b then f hash_key else zeros 32;
          storage = storage;
          exists_ = b;
        },
        rw
            (
              basic_data-Views env v' address,
              get_balance-Views env v' address,
              get_nonce-Views env v' address,
              hash,
              e,
            )
            refl,
        v',
        λ k.
            rw (root, same, found k)
              (answer (contains keys k) (f (get_storage_key env.ipa address k))),
        rw (root, same) (field b (zeros 8) (slice 8 16 (basic env f address)) (zeros 8)),
        rw (root, same)
            (field b env.new_amount (env.new_from_bytes (slice 16 32 (basic env f address)))
              env.zero_amount),
      )
