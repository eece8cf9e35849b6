-- ===== src/Tests/ToyGeth.antt =====
-- A stand-in for the trie of go-ethereum, over functions: it shows that the theorems about every
-- `Library` that keeps accounts and storage apply to one.
use verkle_trie.Prelude.{
  ℕ, ◌≡◌, refl, ◌∙◌, sym, ap, Bool, true, false, Option, none, some, [], Bytes, be_value,
  bytes_equal, bytes_equal_refl, length, if◌then◌else◌, ◌&&◌,
}
use verkle_trie.Geth.{Result, ok, StateAccount, Library, VerkleState, get_code_size}
use verkle_trie.Witness.{lookup}
use verkle_trie.Geth.Accounts.{KeepsAccounts, ok-injective}
use verkle_trie.Geth.Methods.{KeepsStorage}
use verkle_trie.Geth.Sizes.{IsSized}
use verkle_trie.Tests.Toy.{digits_be}

pub record ToyVerkle : Type 0 where
  pub account : Bytes → Option StateAccount
  pub size : Bytes → ℕ
  pub slot : Bytes → Bytes → Bytes

abbrev pub empty_account : StateAccount
empty_account = record { nonce = 0; balance = 0; code_hash = digits_be 32 1 [] }

abbrev pub library : Library
library = record {
  Failure = Unit {0};
  Verkle = ToyVerkle;
  get_account = λ v a. ok (v.account a);
  update_account = λ v a account size. ok (record v {
    account = λ b. if bytes_equal b a then some account else v.account b;
    size = λ b. if bytes_equal b a then size else v.size b;
  });
  get_storage = λ v a key. ok (v.slot a key);
  update_storage = λ v a key value. ok (record v {
    slot = λ b k. if bytes_equal b a && bytes_equal k key then value else v.slot b k;
  });
  update_contract_code = λ v a hash code. ok v;
  hash = λ v. [];
  new_empty_state_account = empty_account;
  keccak256 = λ code. digits_be 32 (length code) [];
  to_uint64 = be_value 0;
  to_nonce = λ n. digits_be 8 n [];
  Amount = ℕ;
  uint256 = λ n. n;
  new_from_uint256 = λ n. n;
}

ok_if :
    {A : Type 0} (b : Bool) (x y : A)
    → ◌≡◌ {A = Result (Unit {0}) A} (ok (if b then x else y)) (if b then ok x else ok y)
ok_if true x y = refl
ok_if false x y = refl

pub library-KeepsAccounts : KeepsAccounts library
library-KeepsAccounts = record {
  size_of = λ v. v.size;
  get_account-update_account = λ v v' a account size e b.
      ap
        (λ (x : ToyVerkle). let r : Result (Unit {0}) (Option StateAccount) = ok (x.account b) in r)
        (sym (ok-injective _ _ e))
      ∙ ok_if (bytes_equal b a) (some account) (v.account b);
  size_of-update_account =
      λ v v' a account size e b. ap (λ (x : ToyVerkle). x.size b) (sym (ok-injective _ _ e));
  get_account-update_storage = λ v v' a key value e b. (
    ap (λ (x : ToyVerkle). let r : Result (Unit {0}) (Option StateAccount) = ok (x.account b) in r)
        (sym (ok-injective _ _ e)),
    ap (λ (x : ToyVerkle). x.size b) (sym (ok-injective _ _ e)),
  );
  get_account-update_contract_code = λ v v' a hash code e b. (
    ap (λ (x : ToyVerkle). let r : Result (Unit {0}) (Option StateAccount) = ok (x.account b) in r)
        (sym (ok-injective _ _ e)),
    ap (λ (x : ToyVerkle). x.size b) (sym (ok-injective _ _ e)),
  );
}

pub library-KeepsStorage : KeepsStorage library
library-KeepsStorage = record {
  get_storage-update_storage = λ v v' a key value e. (
    0,
    value,
    ap (λ (x : ToyVerkle). let r : Result (Unit {0}) Bytes = ok (x.slot a key) in r)
          (sym (ok-injective _ _ e))
        ∙ (rw (bytes_equal_refl a, bytes_equal_refl key) refl),
    refl,
  );
}

-- a trie with no account
abbrev pub new_verkle : ToyVerkle
new_verkle = record { account = λ a. none; size = λ a. 0; slot = λ a k. [] }

abbrev pub new_state : VerkleState library
new_state = record { verkle = new_verkle; codes = [] }

pub new_state-IsSized : IsSized library-KeepsAccounts new_state
unfolding library-KeepsAccounts get_code_size lookup
new_state-IsSized = record { sizes = λ b. refl; fresh = λ b e. refl }
