-- ===== src/Trie/Reached.antt =====
-- trie.go: the tries that writes of keys and values and commits make of the empty trie.
use verkle_trie.Prelude.{
  ◌≡◌, refl, ◌∙◌, sym, ap, some, >>=-eq-some, ◌>>=◌, List, [], ◌∷◌, ◌++◌, Bytes, All, All-append,
  subst,
}
use mathlib.Core.Option.{some-injective}
use verkle_trie.Commit.Encoding.{IsBytes32, zeros-IsByte}
use verkle_trie.Commit.{Ipa}
use verkle_trie.Node.{zero_bytes32}
use verkle_trie.Snapshot.Writes.{final, latest-final, final-IsBytes32}
use verkle_trie.Trie
use verkle_trie.Trie.{Trie, empty, Op, put, commits, step, run}
use verkle_trie.Trie.History.{run-eq-latest}
use verkle_trie.Trie.Binding.{HasBytes32-HasKey}
use verkle_trie.Trie.Sized.{HasBytes32}

module _ {ipa : Ipa} where
  -- a trie that a history of typed writes and of commits makes of the empty one
  pub record IsReached (t : Trie ipa) : Type 0 where
    pub history : List Op
    pub typed : All HasBytes32 history
    pub runs : run ipa (empty ipa) history ≡ some t

  pub empty-IsReached : IsReached (empty ipa)
  unfolding run
  empty-IsReached = record { history = []; typed = tt; runs = refl }

  run-append :
      (ops : List Op) (op : Op) (t u u' : Trie ipa)
      → run ipa t ops ≡ some u
      → step ipa u op ≡ some u'
      → run ipa t (ops ++ op ∷ []) ≡ some u'
  unfolding run
  run-append [] op t u u' e e' =
      ap (λ (x : Trie ipa). step ipa x op >>= some) (some-injective _ _ e) ∙ (rw e' refl)
  run-append (o ∷ ops) op t u u' e e' =
      let (t1, first, rest) = >>=-eq-some (step ipa t o) _ e in
      rw first (run-append ops op t1 u u' rest e')

  step-IsReached :
      (op : Op) (t t' : Trie ipa)
      → IsReached t
      → HasBytes32 op
      → step ipa t op ≡ some t'
      → IsReached t'
  step-IsReached op t t' r h e = record {
    history = r.history ++ op ∷ [];
    typed = All-append r.history (op ∷ []) HasBytes32 r.typed (h, tt);
    runs = run-append r.history op (empty ipa) t t' r.runs e;
  }

  pub set-IsReached :
      (t t' : Trie ipa) (key value : Bytes)
      → IsReached t
      → IsBytes32 key
      → IsBytes32 value
      → Trie.set ipa t key value ≡ some t'
      → IsReached t'
  unfolding step
  set-IsReached t t' key value r k v e = step-IsReached (put key value) t t' r (k, v) e

  pub commit-IsReached : (t : Trie ipa) → IsReached t → IsReached (Trie.commit ipa t).1
  unfolding step
  commit-IsReached t r = step-IsReached commits t (Trie.commit ipa t).1 r tt refl

  pub get-IsBytes32 :
      (t : Trie ipa) (key value : Bytes)
      → IsReached t
      → IsBytes32 key
      → Trie.get ipa t key ≡ some value
      → IsBytes32 value
  get-IsBytes32 t key value r k e =
      let (t1, e1, _, reads) =
        run-eq-latest {ipa = ipa} r.history (HasBytes32-HasKey r.history r.typed) in
      let same : t ≡ t1 = some-injective _ _ (sym r.runs ∙ e1) in
      let found : final zero_bytes32 r.history key ≡ value = some-injective _ _ (
        sym (latest-final r.history zero_bytes32 key)
        ∙ sym (reads key k.0)
        ∙ ap (λ (x : Trie ipa). Trie.get ipa x key) (sym same)
        ∙ e) in
      subst IsBytes32 found
        (final-IsBytes32 r.history zero_bytes32 key r.typed (refl, zeros-IsByte 32))
