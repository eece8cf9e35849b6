-- ===== src/Geth/Persistent.antt =====
-- geth/state.go: `Apply` of both states, and the state that keeps its nodes in a source.
use verkle_trie.Prelude.{◌≡◌, ◌∙◌, sym, ap, Option, List, [], ◌∷◌, Bytes}
use verkle_trie.Witness.{lookup}
use verkle_trie.Witness.Extracts.{or_else}
use verkle_trie.Witness.Ranges.{IsMap}
use verkle_trie.Geth.{
  Result, ok, failed, ◌>>=◌, Library, VerkleState, create_account, delete_account, set_nonce,
  set_balance, set_storage, set_code, new_verkle_state,
}
use verkle_trie.Geth.Accounts.{>>=-eq-ok, ok-injective, KeepsAccounts}
use verkle_trie.Geth.Sizes.{
  IsSized, create_account-IsSized, set_nonce-IsSized, set_balance-IsSized, set_storage-IsSized,
  set_code-IsSized,
}
use verkle_trie.Geth.Source.{
  NodeSource, MemorySource, memory_source, memory_node, store_nodes, store_nodes-memory_source,
  memory_node-store_nodes,
}

-- the methods of a state that `common.Update.ApplyTo` calls
pub record Target (Failure Amount S : Type 0) : Type 0 where
  pub create : S → Bytes → Result Failure S
  pub delete : S → Bytes → Result Failure S
  pub set_nonce : S → Bytes → Bytes → Result Failure S
  pub set_balance : S → Bytes → Amount → Result Failure S
  pub set_storage : S → Bytes → Bytes → Bytes → Result Failure S
  pub set_code : S → Bytes → Bytes → Result Failure S

-- What a target's methods keep.
pub record Closed {Failure Amount S : Type 0} (target : Target Failure Amount S) (P : S → Type 0)
    : Type 0 where
  pub create : (s s' : S) (a : Bytes) → P s → target.create s a ≡ ok s' → P s'
  pub delete : (s s' : S) (a : Bytes) → P s → target.delete s a ≡ ok s' → P s'
  pub set_nonce : (s s' : S) (a nonce : Bytes) → P s → target.set_nonce s a nonce ≡ ok s' → P s'
  pub set_balance :
      (s s' : S) (a : Bytes) (balance : Amount)
      → P s
      → target.set_balance s a balance ≡ ok s'
      → P s'
  pub set_storage :
      (s s' : S) (a key value : Bytes) → P s → target.set_storage s a key value ≡ ok s' → P s'
  pub set_code : (s s' : S) (a code : Bytes) → P s → target.set_code s a code ≡ ok s' → P s'

-- common.Update with `ApplyTo`, and what a persistent state calls beside `Library`: `Commit` of the
-- trie, with its node set, and `NewVerkleTrie` over the source.
pub record Persistence (lib : Library) (src : NodeSource lib.Failure) : Type 1 where
  pub Update : Type 0
  pub apply_to : {S : Type 0} → Target lib.Failure lib.Amount S → S → Update → Result lib.Failure S
  pub commit : lib.Verkle → Bytes × List (Bytes × Bytes)
  pub new_verkle_trie : Bytes → src.Source → Result lib.Failure lib.Verkle
  pub join : lib.Failure → List lib.Failure → lib.Failure

module _ (lib : Library) where
  -- `verkleState` as the target of an update
  abbrev pub verkle_target : Target lib.Failure lib.Amount (VerkleState lib)
  verkle_target = record {
    create = create_account lib;
    delete = delete_account lib;
    set_nonce = set_nonce lib;
    set_balance = set_balance lib;
    set_storage = set_storage lib;
    set_code = set_code lib;
  }

  module _ (src : NodeSource lib.Failure) (p : Persistence lib src) where
    -- `persistentVerkleState`
    pub record PersistentState : Type 0 where
      pub state : VerkleState lib
      pub source : src.Source

    -- `NewStateWithSource`
    unfoldable pub new_state_with_source : src.Source → Result lib.Failure PersistentState
    unfolding new_verkle_state
    new_state_with_source source = do
      s ← new_verkle_state lib (λ root. p.new_verkle_trie root source)
      ok (record { state = s; source = source })

    -- `verkleState.Apply`
    unfoldable pub apply : VerkleState lib → p.Update → Result lib.Failure (VerkleState lib)
    apply s update = p.apply_to verkle_target s update

    -- after the nodes are stored: an error of a write, or the trie that is read back
    unfoldable pub reload :
        VerkleState lib → Bytes → src.Source × List lib.Failure → Result lib.Failure PersistentState
    reload s root (source, e ∷ errs) = failed (p.join e errs)
    reload s root (source, []) = do
      v ← p.new_verkle_trie root source
      ok (record { state = record s { verkle = v }; source = source })

    -- `persistentVerkleState.Apply`. What a failed call has changed before is not kept in the result.
    unfoldable pub apply_persistent :
        PersistentState → p.Update → Result lib.Failure PersistentState
    unfolding apply reload
    apply_persistent s update = do
      s' ← apply s.state update
      let r = p.commit s'.verkle
      reload s' r.0 (store_nodes src s.source r.1)

    unfoldable pub flush : PersistentState → PersistentState × Option lib.Failure
    flush s = let r = src.flush s.source in (record s { source = r.0 }, r.1)

    -- `Close` flushes and closes, and joins the two errors
    unfoldable pub close :
        PersistentState → PersistentState × Option lib.Failure × Option lib.Failure
    unfolding flush
    close s =
        let f = flush s in let c = src.close f.0.source in (record s { source = c.0 }, f.1, c.1)

-- `ApplyTo` changes a state by the methods alone.
abbrev pub CallsMethods :
    {lib : Library} {src : NodeSource lib.Failure} → Persistence lib src → Type 1
CallsMethods {lib} {src} p =
    (S : Type 0) (target : Target lib.Failure lib.Amount S) (P : S → Type 0)
    → Closed target P
    → (s s' : S) (update : p.Update) → P s
    → p.apply_to target s update ≡ ok s'
    → P s'

module _ {lib : Library} (keeps : KeepsAccounts lib) where
  verkle_target-Closed : Closed (verkle_target lib) (IsSized keeps)
  unfolding delete_account
  verkle_target-Closed = record {
    create = create_account-IsSized keeps;
    delete = λ s s' a w e. cc;
    set_nonce = set_nonce-IsSized keeps;
    set_balance = set_balance-IsSized keeps;
    set_storage = set_storage-IsSized keeps;
    set_code = set_code-IsSized keeps;
  }

  module _ (p : Persistence lib (memory_source lib.Failure)) (calls : CallsMethods p) where
    -- Over a library that keeps accounts, where `ApplyTo` changes a state by its methods alone, `Apply`
    -- that succeeds keeps the invariant that the trie has the size of each code in the map of codes.
    pub apply-IsSized :
        (s s' : VerkleState lib) (update : p.Update)
        → IsSized keeps s
        → apply lib (memory_source lib.Failure) p s update ≡ ok s'
        → IsSized keeps s'
    unfolding apply
    apply-IsSized s s' update w e =
        calls (VerkleState lib) (verkle_target lib) (IsSized keeps) verkle_target-Closed s s' update
          w e

module _ {lib : Library} (p : Persistence lib (memory_source lib.Failure)) where
  abbrev memory : NodeSource lib.Failure
  memory = memory_source lib.Failure

  reload_lem :
      (s : VerkleState lib) (root : Bytes) (source : MemorySource) (errs : List lib.Failure)
      (r : PersistentState lib memory p)
      → errs ≡ []
      → reload lib memory p s root (source, errs) ≡ ok r
      → (v : lib.Verkle) × (p.new_verkle_trie root source ≡ ok v)
        × (record { state = record s { verkle = v }; source = source } ≡ r)
  unfolding reload
  reload_lem s root source [] r none_failed e =
      let (v, run, e') = >>=-eq-ok (p.new_verkle_trie root source) _ e in
      (v, run, ok-injective _ _ e')
  reload_lem s root source (x ∷ errs) r none_failed e = cc

  -- Where `Commit` returns a map and `Apply` of a persistent state over a memory source succeeds, the new trie is read back,
  -- under the root that `Commit` returned, from a source that has each node of the commit and keeps
  -- all others; the codes are those after the update.
  pub apply_persistent_lem :
      ((v : lib.Verkle) → IsMap (p.commit v).1)
      → (s s' : PersistentState lib memory p) (update : p.Update)
      → apply_persistent lib memory p s update ≡ ok s'
      → (s1 : VerkleState lib) × (apply lib memory p s.state update ≡ ok s1)
        × (p.new_verkle_trie (p.commit s1.verkle).0 s'.source ≡ ok s'.state.verkle)
        × (s'.state.codes ≡ s1.codes)
        × ((path : Bytes)
            → memory_node s'.source path
              ≡ or_else (lookup (p.commit s1.verkle).1 path) (memory_node s.source path))
  unfolding apply_persistent
  apply_persistent_lem maps s s' update e =
      let (s1, run, e1) = >>=-eq-ok (apply lib memory p s.state update) _ e in
      let nodes = (p.commit s1.verkle).1 in
      let stored = store_nodes memory s.source nodes in
      let (v, read, same) =
        reload_lem s1 (p.commit s1.verkle).0 stored.0 stored.1 s'
          (store_nodes-memory_source lib.Failure s.source nodes) e1 in
      let source : stored.0 ≡ s'.source =
        ap (λ (x : PersistentState lib memory p). x.source) same in
      let verkle : v ≡ s'.state.verkle =
        ap (λ (x : PersistentState lib memory p). x.state.verkle) same in
      (
        s1,
        run,
        ap (p.new_verkle_trie (p.commit s1.verkle).0) (sym source) ∙ read ∙ ap ok verkle,
        ap (λ (x : PersistentState lib memory p). x.state.codes) (sym same),
        λ path.
            ap (λ (x : MemorySource). memory_node x path) (sym source)
            ∙ memory_node-store_nodes lib.Failure s.source nodes path (maps s1.verkle),
      )
