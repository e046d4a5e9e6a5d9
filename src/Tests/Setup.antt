-- ===== src/Tests/Setup.antt =====
-- Fixed-point numbers for `double`, a key whose raw operation is the identity on blocks of four bytes, and the state of
-- a node among four servers.
use algorand.Prelude.{
  ℕ, zero, suc, ◌+◌, ◌-◌, ◌*◌, ◌/◌, ◌≡◌, refl, Bool, false, List, [], ◌∷◌, Option, none, some, Text,
  codes, length, drop, replicate, ◌==◌, ltb, leb, if◌then◌else◌, arith, length-replicate,
}
use algorand.Prelude.Int.{pos, pos_part}
use algorand.Blockchain.Double.{Doubles, NonnegLaws}
use algorand.Blockchain.Vrf.{Openssl}
use algorand.Blockchain.Vrf.Laws.{RsaLaws, IsPair}
use algorand.Blockchain.Algorand.{Algorand}
use algorand.System.Node.{Platform, Config}

abbrev pub one : ℕ
one = 65536

abbrev power : ℕ → ℕ → ℕ
power zero x = one
power (suc n) x = x * power n x / one

abbrev pub fixed : Doubles
fixed = record {
  Double = ℕ;
  of_ℤ = λ z. pos_part z * one;
  add = λ x y. x + y;
  sub = λ x y. x - y;
  mul = λ x y. x * y / one;
  div = λ x y. x * one / y;
  pow = λ x y. power (y / one) x;
  lt = ltb;
  le = leb;
}

pub fixed-NonnegLaws : NonnegLaws fixed
fixed-NonnegLaws = record {
  le_left = λ x y h. ground arith;
  le_right = λ x y h. ground arith;
  lt_right = λ x y h. ground arith;
  le_trans = λ x y z h k. ground arith;
  lt-le = λ x y z h k. ground arith;
  lt_irrefl = λ x. ground arith;
  le_of_not_lt = λ x y u v h. ground arith;
  of_nonneg = λ n. ground arith;
  of_pos = λ n h. ground arith;
  add_left = λ x y h. ground arith;
  add_right = λ x y h. ground arith;
  mul_left = λ x y h. ground arith;
  div_left = λ x y h. ground arith;
  le-add = λ x y h k. ground arith;
  mul_nonneg = λ x y h k v. ground arith;
  div_nonneg = λ x y h k v. ground arith;
  pow_nonneg = λ x k h. ground arith;
  pow_rest = λ p n k h. ground arith;
}

-- the same numbers, with NaN for a sum of 7/8 or more
abbrev lift : (ℕ → ℕ → ℕ) → Option ℕ → Option ℕ → Option ℕ
lift f none y = none
lift f (some x) none = none
lift f (some x) (some y) = some (f x y)

abbrev bounded_add : Option ℕ → Option ℕ → Option ℕ
bounded_add none y = none
bounded_add (some x) none = none
bounded_add (some x) (some y) = if ltb (x + y) 57344 then some (x + y) else none

abbrev compare_by : (ℕ → ℕ → Bool) → Option ℕ → Option ℕ → Bool
compare_by f none y = false
compare_by f (some x) none = false
compare_by f (some x) (some y) = f x y

abbrev pub overflowing : Doubles
overflowing = record {
  Double = Option ℕ;
  of_ℤ = λ z. some (pos_part z * one);
  add = bounded_add;
  sub = lift (λ x y. x - y);
  mul = lift (λ x y. x * y / one);
  div = lift (λ x y. x * one / y);
  pow = lift (λ x y. power (y / one) x);
  lt = compare_by ltb;
  le = compare_by leb;
}

pub overflowing-NonnegLaws : NonnegLaws overflowing
overflowing-NonnegLaws = record {
  le_left = λ x y h. ground arith;
  le_right = λ x y h. ground arith;
  lt_right = λ x y h. ground arith;
  le_trans = λ x y z h k. ground arith;
  lt-le = λ x y z h k. ground arith;
  lt_irrefl = λ x. ground arith;
  le_of_not_lt = λ x y u v h. ground arith;
  of_nonneg = λ n. ground arith;
  of_pos = λ n h. ground arith;
  add_left = λ x y h. ground arith;
  add_right = λ x y h. ground arith;
  mul_left = λ x y h. ground arith;
  div_left = λ x y h. ground arith;
  le-add = λ x y h k. ground arith;
  mul_nonneg = λ x y h k v. ground arith;
  div_nonneg = λ x y h k v. ground arith;
  pow_nonneg = λ x k h. ground arith;
  pow_rest = λ p n k h. ground arith;
}

abbrev block : Text → Option Text
block m = if length m == 4 then some m else none

abbrev pub openssl : Openssl
openssl = record {
  Key = Unit {0};
  Md = Unit {0};
  rsa_size = λ k. 4;
  num_bytes = λ k. 4;
  public_of = λ k. k;
  mgf1 = λ n input md. some (replicate n (8 * length input));
  private_encrypt = λ m k. block m;
  public_decrypt = λ s k. block s;
  digest = λ md proof. some (drop 1 proof);
  write_public = λ k. codes "PK";
  read_public = λ pk. some tt;
  sha1 = some tt;
}

block-eq : (m : Text) {s : Text} → block m ≡ some s → m ≡ s
block-eq m h = ground arith

pub openssl-RsaLaws : RsaLaws openssl
openssl-RsaLaws = record {
  size_eq = λ k. refl;
  size_pos = λ k. omega arith;
  public_size = λ k. refl;
  length-mgf1 = λ n input md h. ground (arith, length-replicate n (8 * length input));
  length-encrypt = λ m k h. ground arith;
  encrypt_block = λ m k h. (0 ∷ m, ground arith);
  decrypt-encrypt = λ m k h. ground arith;
  read-write = λ k. refl;
}

pub openssl-IsPair : IsPair openssl tt
openssl-IsPair = record { encrypt-decrypt = λ s m e h. ground arith }

abbrev pub platform : Platform
platform = record {
  D = fixed;
  O = openssl;
  Request = ℕ;
  key = λ r. r;
  value = λ r. r ∷ [];
  to_string = λ n. n ∷ [];
  hash256_hex_string = λ s. s;
  agreement = 44564;
  fuel = 10;
  Database = List ℕ;
  run_txn = λ txn db. txn.txn_id ∷ db;
  release_transaction_manager = λ j table. table;
}

abbrev pub config : Config
config = record {
  g_node_id = 1;
  g_node_cnt = 4;
  g_client_node_cnt = 1;
  g_inflight_max = 5;
  g_batch_size = 2;
  g_txn_per_chkpt = 4;
}

-- the vote's state, with a stake of 3 in a total of 40
abbrev pub user : Algorand openssl
user = record {
  publickeys = codes "PK" ∷ codes "PK" ∷ codes "K2" ∷ codes "K3" ∷ [];
  wallet = (codes "PK", pos 3) ∷ [];
  round = 0;
  seed = codes "FWLKFWLKFWLKFWLKFWLK";
  step = 0;
  user_count = 4;
  sum_w = pos 40;
  m_id = 1;
  counts = [];
  countvotes_pk = [];
  f_hash = some tt;
  m_publickey = some tt;
  m_privatekey = some tt;
  m_wallet = 3;
  m_block = codes "0123456789abcdef0123456789abcdef";
}
