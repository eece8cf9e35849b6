-- ===== src/Tests/PastRuns.antt =====
-- Two blocks on the state of state.go, and the state after the second recalled.
use verkle_trie.Prelude.{
  >>=-eq-some, ℕ, zero, suc, ◌+◌, ◌*◌, ◌/◌, ◌%◌, ◌≡◌, ◌⊎◌, refl, ◌∙◌, sym, ap, ap₂, true, none,
  some, List, [], ◌∷◌, ◌++◌, Bytes, IsByte, All, length, be_value, bytes_equal, bytes_equal-eq,
  zeros, tabulate, arith, Bool-cases, inl, inr, ◌==◌, ==_iff,
}
use mathlib.Core.List.{reverse_aux, append-nil}
use verkle_trie.Commit
use verkle_trie.Commit.{Commitment, compress}
use verkle_trie.Commit.Encoding.{IsStandard}
use verkle_trie.Commit.Binding.{Break}
use verkle_trie.Archive.{Archive, Snapshot, new_archive, add_block, record_block}
use verkle_trie.Archive.Bounds
use verkle_trie.Archive.Bounds.{new_archive-IsValid, add_block-IsValid}
use verkle_trie.Archive.Oldest.{IsOrdered, add_block-IsOrdered}
use verkle_trie.Embedding.{get_storage_key}
use verkle_trie.Embedding.Keys.{get_storage_key-IsKey}
use verkle_trie.Snapshot.{create_snapshot}
use verkle_trie.Snapshot.Samples.{is_sampled}
use verkle_trie.Snapshot.Histories.{IsSampled}
use verkle_trie.Snapshot.Writes.{HasEntry, HasEntry-HasKey}
use verkle_trie.State.{
  Update, apply_to_trie, each, set_slot, get_nonce, get_balance, get_code_hash, get_storage,
}
use verkle_trie.State.Accounts.{empty-Views}
use verkle_trie.State.Bytes32.{HasTypes, IsTyped}
use verkle_trie.State.Proofs.{get_hash}
use verkle_trie.Trie
use verkle_trie.Trie.{Trie, Op, put, commits, step, run}
use verkle_trie.Trie.Laws.{IsValid}
use verkle_trie.Node.Shape.{IsKey}
use verkle_trie.Trie.Contents.{written}
use verkle_trie.Trie.History.{latest, run-eq-latest}
use verkle_trie.Memory.{
  State, new_state, apply, archive_current_state, track_all, get_archive_state,
}
use verkle_trie.Memory.Blocks.{create_snapshot-total}
use verkle_trie.Memory.Chain.{apply_all}
use verkle_trie.Memory.Past.{get_archive_state-binding}
use verkle_trie.Memory.Recall.{get_archive_state-archive_current_state}
use verkle_trie.Memory.Window.{numbered}
use verkle_trie.Tests.SnapshotRuns.{slot_key, slot_key_sampled, length-compress}
use verkle_trie.Tests.MemoryRuns.{new_archive-IsOrdered}
use verkle_trie.Tests.StateRuns.{env, env-HasLengths, new_trie}
use verkle_trie.Tests.Toy.{toy, digits_be, digits_le, le_value}

digits-le_value :
    (bs acc : Bytes) → All IsByte bs → digits_be (length bs) (le_value bs) acc ≡ reverse_aux bs acc
digits-le_value [] acc h = refl
digits-le_value (b ∷ bs) acc h =
    let high : (b + 256 * le_value bs) / 256 ≡ le_value bs = omega (arith, h.0) in
    let low : (b + 256 * le_value bs) % 256 ≡ b = omega (arith, h.0) in
    ap₂ (λ q r. digits_be (length bs) q (r ∷ acc)) high low ∙ digits-le_value bs (b ∷ acc) h.1

-- A byte string that is read as a number is written again.
digits-be_value :
    (bs : Bytes) (m a : ℕ) (acc : Bytes)
    → All IsByte bs
    → digits_be (length bs + m) (be_value a bs) acc ≡ digits_be m a (bs ++ acc)
unfolding be_value
digits-be_value [] m a acc h = ap (λ n. digits_be n a acc) (let e : 0 + m ≡ m = omega arith in e)
digits-be_value (b ∷ bs) m a acc h =
    let shift : suc (length bs) + m ≡ length bs + suc m = omega arith in
    let high : (a * 256 + b) / 256 ≡ a = omega (arith, h.0) in
    let low : (a * 256 + b) % 256 ≡ b = omega (arith, h.0) in
    ap (λ n. digits_be n (be_value (a * 256 + b) bs) acc) shift
    ∙ digits-be_value bs (suc m) (a * 256 + b) acc h.1
    ∙ (rw (high, low) refl)

digits_be-bytes : (k n : ℕ) (acc : Bytes) → All IsByte acc → All IsByte (digits_be k n acc)
digits_be-bytes zero n acc h = h
digits_be-bytes (suc k) n acc h = digits_be-bytes k (n / 256) (n % 256 ∷ acc) (omega arith, h)

digits_le-bytes : (k n : ℕ) → All IsByte (digits_le k n)
digits_le-bytes zero n = tt
digits_le-bytes (suc k) n = (omega arith, digits_le-bytes k (n / 256))

toy-IsStandard : IsStandard toy
unfolding tabulate bytes_equal
toy-IsStandard = record {
  same_fr = λ x y. elim (Bool-cases (x == y)) [
    | inl same ↦ yes ((==_iff x y).0 same)
    | inr apart ↦ no (λ e. let same = (==_iff x y).1 e in cc)
  ];
  bytes-set_bytes_le =
      λ bs w top. ap (λ n. digits_be n (le_value bs) []) (sym w.0) ∙ digits-le_value bs [] w.1;
  bytes-set_bytes = λ bs w top.
      ap (λ n. digits_be n (be_value 0 bs) [])
        (let e : 32 ≡ length bs + 0 = omega (arith, w.0) in e)
      ∙ digits-be_value bs 0 0 [] w.1
      ∙ append-nil bs;
  one = λ e. absurd (omega (arith, e));
  equal-identity_left = λ q. refl;
  equal-identity_right = λ q. refl;
}

-- a block that writes nothing
abbrev idle : Update env
idle = record { created_accounts = []; nonces = []; balances = []; slots = []; codes = [] }

-- a block that writes a slot
abbrev busy : Update env
busy = record {
  created_accounts = [];
  nonces = [];
  balances = [];
  slots = (zeros 20, zeros 32, 9 ∷ zeros 31) ∷ [];
  codes = [];
}

abbrev ops : List Op
ops = commits ∷ put slot_key (9 ∷ zeros 31) ∷ []

ops-IsSampled : IsSampled toy ops
unfolding written latest
ops-IsSampled = record {
  sampled = λ k len here. elim (Bool-cases (bytes_equal k slot_key)) [
    | inl slot ↦ ap (is_sampled toy 256 0) (bytes_equal-eq k slot_key slot) ∙ slot_key_sampled
    | inr other ↦ cc (rw other at here)
  ];
  not_zero = λ k len here e. elim (Bool-cases (bytes_equal k slot_key)) [
    | inl slot ↦ cc (rw slot at e)
    | inr other ↦ cc (rw other at here)
  ];
}

ops-HasEntry : All HasEntry ops
ops-HasEntry = (tt, ((get_storage_key-IsKey toy (zeros 20) (zeros 32), refl), tt))

ops-run : (t : Trie toy) × (run toy (Trie.empty toy) ops ≡ some t)
ops-run = let (t, e, _, _) = run-eq-latest ops (HasEntry-HasKey ops ops-HasEntry) in (t, e)

-- the state after the first block
first_snapshot :
    (s : Snapshot) × (create_snapshot toy new_trie ≡ some ((Trie.commit toy new_trie).1, s))
    × (s.commitment ≡ (get_hash env new_trie).0)
first_snapshot = create_snapshot-total new_trie (λ k. zeros 32) (empty-Views env)

abbrev first_archive : Archive
first_archive = add_block (new_archive 1000) 1 first_snapshot.0

abbrev first_state : State env
first_state = record {
  trie = (Trie.commit toy new_trie).1;
  archive = first_archive;
  written_slots = [];
  archive_max_size = 1000;
}

first_block : apply env (new_state env) 1 idle ≡ some first_state
unfolding apply apply_to_trie each archive_current_state track_all
first_block = rw first_snapshot.1 refl

-- the state of the second block, before it is archived
abbrev written_state : State env
written_state = record first_state { trie = ops-run.0; written_slots = track_all [] busy.slots }

written_trie : apply_to_trie env first_state.trie busy ≡ some ops-run.0
unfolding apply_to_trie each set_slot run step get_storage_key
written_trie =
    let (t, e, end) =
      >>=-eq-some (Trie.set toy first_state.trie slot_key (9 ∷ zeros 31)) (λ u. run toy u [])
        ops-run.1 in
    rw e end

first_archive-IsValid : Bounds.IsValid first_archive
first_archive-IsValid =
    add_block-IsValid (new_archive 1000) 1 first_snapshot.0 (new_archive-IsValid 1000)

first_archive-IsOrdered : IsOrdered first_archive
first_archive-IsOrdered =
    add_block-IsOrdered (new_archive 1000) 1 first_snapshot.0 (new_archive-IsValid 1000)
      new_archive-IsOrdered (omega arith)

first_blocks : (first_archive.has_blocks ≡ true) × (first_archive.max_block ≡ 1)
unfolding add_block record_block new_archive
first_blocks = (refl, refl)

recalled :
    (s r : State env) × (archive_current_state env written_state 2 ≡ some s)
    × (get_archive_state env s 2 ≡ some (none, r))
    × IsValid r.trie
    × ((Trie.commit toy r.trie).0 ≡ (Trie.commit toy written_state.trie).0)
    × ((k : Bytes) → IsKey k → Trie.get toy r.trie k ≡ Trie.get toy written_state.trie k)
recalled =
    get_archive_state-archive_current_state written_state 2 ops first_archive-IsValid
      first_archive-IsOrdered first_blocks.0 (omega (arith, first_blocks.1)) ops-run.1 ops-HasEntry
      ops-IsSampled length-compress

both_blocks : apply_all env (new_state env) (numbered env 1 (idle ∷ busy ∷ [])) ≡ some recalled.0
unfolding apply_all numbered apply
both_blocks = rw (first_block, written_trie, recalled.2) refl

env-HasTypes : HasTypes env
env-HasTypes = record {
  bytes_le-bytes = digits_le-bytes 32;
  keccak256-bytes = λ code. (refl, digits_be-bytes 32 (1 + length code) [] tt);
  empty_code_hash-bytes = (refl, digits_be-bytes 32 1 [] tt);
  bytes32-bytes = λ a. (refl, digits_be-bytes 32 a [] tt);
}

compress_same :
    (c d : Commitment toy)
    → bytes_equal (compress toy c) (compress toy d) ≡ true
    → Commit.equal toy c d ≡ true
unfolding compress Commit.equal
compress_same c d e = e

blocks-IsTyped : All IsTyped (idle ∷ busy ∷ [])
blocks-IsTyped = (
  record { nonces = tt; slots = tt; codes = tt },
  (record { nonces = tt; slots = omega arith; codes = tt }, tt),
)

get_archive_state-binding_example :
    Break toy
    ⊎ ((get_nonce env recalled.1.trie (zeros 20) ≡ get_nonce env recalled.0.trie (zeros 20))
        × (get_balance env recalled.1.trie (zeros 20) ≡ get_balance env recalled.0.trie (zeros 20))
        × (get_code_hash env recalled.1.trie (zeros 20)
            ≡ get_code_hash env recalled.0.trie (zeros 20))
        × (get_storage env recalled.1.trie (zeros 20) (zeros 32)
            ≡ get_storage env recalled.0.trie (zeros 20) (zeros 32)))
get_archive_state-binding_example =
    get_archive_state-binding toy-IsStandard env-HasLengths env-HasTypes length-compress
      compress_same (idle ∷ busy ∷ []) 2 recalled.0 recalled.0 recalled.1 (zeros 20) (zeros 32)
      blocks-IsTyped (omega arith) refl both_blocks both_blocks recalled.3
