-- ===== src/State/View.antt =====
-- The trie of state.go as a function from keys to values, and what each loop of `Apply` does to it.
use verkle_trie.Prelude.{
  ◌≡◌, refl, ◌∙◌, Option, some, List, [], ◌∷◌, Bytes, bytes_equal, length, if◌then◌else◌,
  Bool-cases, inl, inr, All,
}
use verkle_trie.Node.Shape.{IsKey}
use verkle_trie.Trie
use verkle_trie.Trie.{Trie}
use verkle_trie.Trie.Laws.{IsValid, get-set}
use verkle_trie.State.{Env, each}

-- What the state relies on of the other packages: hashes and amounts have 32 bytes.
pub record HasLengths (env : Env) : Type 0 where
  pub length-keccak256 : (code : Bytes) → length (env.keccak256 code) ≡ 32
  pub length-empty_code_hash : length env.empty_code_hash ≡ 32
  pub length-bytes32 : (a : env.Amount) → length (env.bytes32 a) ≡ 32

-- one value replaced
abbrev pub assign : (Bytes → Bytes) → Bytes → Bytes → Bytes → Bytes
assign f key value k = if bytes_equal k key then value else f k

-- the changes of a loop, one after the other
unfoldable pub changes :
    {A : Type 0} → ((Bytes → Bytes) → A → Bytes → Bytes) → (Bytes → Bytes) → List A → Bytes → Bytes
changes change f [] = f
changes change f (a ∷ as') = changes change (change f a) as'

module _ (env : Env) where
  -- The trie is valid and holds the values of `f`, 32 bytes each.
  pub record Views (t : Trie env.ipa) (f : Bytes → Bytes) : Type 0 where
    pub valid : IsValid t
    pub reads : (k : Bytes) → IsKey k → Trie.get env.ipa t k ≡ some (f k)
    pub sized : (k : Bytes) → IsKey k → length (f k) ≡ 32

  -- a write that succeeds and does `g` to the view
  abbrev pub Writes : Option (Trie env.ipa) → (Bytes → Bytes) → Type 0
  Writes r g = (t' : Trie env.ipa) × (r ≡ some t') × Views t' g

  pub set-Writes :
      (t : Trie env.ipa) (f : Bytes → Bytes) (key value : Bytes)
      → Views t f
      → IsKey key
      → length value ≡ 32
      → Writes (Trie.set env.ipa t key value) (assign f key value)
  set-Writes t f key value v len size =
      let (t', e, valid, reads) = get-set t key value v.valid len in
      (
        t',
        e,
        record {
          valid = valid;
          reads = λ k h. reads k h ∙ (elim (Bool-cases (bytes_equal k key)) [
            | inl same ↦ rw same
            | inr other ↦ rw other (v.reads k h)
          ]);
          sized = λ k h. elim (Bool-cases (bytes_equal k key)) [
            | inl same ↦ rw same size
            | inr other ↦ rw other (v.sized k h)
          ];
        },
      )

  -- a loop whose rounds write `step` to the view
  pub each-Writes :
      {A : Type 0} (P : A → Type 0) (step : Trie env.ipa → A → Option (Trie env.ipa))
      (change : (Bytes → Bytes) → A → Bytes → Bytes)
      → ((t : Trie env.ipa) (f : Bytes → Bytes) (a : A)
          → Views t f
          → P a
          → Writes (step t a) (change f a))
      → (as' : List A) (t : Trie env.ipa) (f : Bytes → Bytes) → Views t f
      → All P as'
      → Writes (each env step t as') (changes change f as')
  unfolding each changes
  each-Writes P step change one [] t f v h = (t, refl, v)
  each-Writes P step change one (a ∷ as') t f v h =
      let (u, e, w) = one t f a v h.0 in
      let (t', e', w') = each-Writes P step change one as' u (change f a) w h.1 in (t', rw e e', w')
