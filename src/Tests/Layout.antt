-- ===== src/Tests/Layout.antt =====
-- A representation of the types that messages carry: numbers as little-endian bytes, `int` in two's complement, and the
-- numbers that stand for doubles and for requests in a cell of their own.
use algorand.Prelude.{
  ℕ, zero, suc, ◌+◌, ◌-◌, ◌*◌, ◌/◌, ◌%◌, ◌^◌, ◌<◌, ◌≡◌, refl, List, [], ◌∷◌, length, arith, ltb,
  if◌then◌else◌, replicate, length-replicate,
}
use algorand.Prelude.Int.{ℤ, pos, negsuc}
use algorand.Blockchain.Algorand.{
  QryType, algorand_init, algorand_getkey, algorand_sort, algorand_verify, algorand_count_v,
  algorand_reset,
}
use algorand.Transport.Messages.{
  RemReqType, keyex, ready, cl_qry, cl_rsp, cl_batch, execute_msg, pbft_pre_msg, batch_req,
  pbft_prep_msg, pbft_commit_msg, pbft_chkpt_msg, pbft_view_change, pbft_new_view,
}
use algorand.Transport.Wire.{Wire}
use algorand.Transport.Wire.Laws.{WireLaws}
use algorand.Transport.Wire.Header.{Layout}
use algorand.Transport.Wire.Header.RoundTrip.{LayoutLaws}
use algorand.Tests.Setup.{platform}

abbrev le_bytes : ℕ → ℕ → List ℕ
le_bytes zero v = []
le_bytes (suc k) v = v % 256 ∷ le_bytes k (v / 256)

abbrev le_value : List ℕ → ℕ
le_value [] = 0
le_value (b ∷ bs) = b + 256 * le_value bs

abbrev number : ℕ → Wire ℕ
number k = record { size = k; to_bytes = le_bytes k; of_bytes = le_value }

length-le_bytes : (k v : ℕ) → length (le_bytes k v) ≡ k
length-le_bytes zero v = refl
length-le_bytes (suc k) v = rw (length-le_bytes k (v / 256)) refl

-- how many values k bytes have
abbrev values : ℕ → ℕ
values zero = 1
values (suc k) = 256 * values k

le_value_lem : (k v : ℕ) → v < values k → le_value (le_bytes k v) ≡ v
le_value_lem zero v h = ground arith
le_value_lem (suc k) v h =
    let smaller : v / 256 < values k = omega arith in
    rw (le_value_lem k (v / 256) smaller) (ground arith)

number_laws : (k b : ℕ) → b ≡ values k → WireLaws (number k) (λ v. v < b)
number_laws k b e = record {
  length-to_bytes = length-le_bytes k;
  of_bytes-to_bytes = λ v h. le_value_lem k v (omega arith);
}

u32_laws : WireLaws (number 4) (λ v. v < 2 ^ 32)
u32_laws = number_laws 4 (2 ^ 32) refl

abbrev rtype_code : RemReqType → ℕ
rtype_code keyex = 0
rtype_code ready = 1
rtype_code cl_qry = 2
rtype_code cl_rsp = 3
rtype_code cl_batch = 4
rtype_code execute_msg = 5
rtype_code pbft_pre_msg = 6
rtype_code batch_req = 7
rtype_code pbft_prep_msg = 8
rtype_code pbft_commit_msg = 9
rtype_code pbft_chkpt_msg = 10
rtype_code pbft_view_change = 11
rtype_code pbft_new_view = 12

abbrev rtype_of : ℕ → RemReqType
rtype_of zero = keyex
rtype_of (suc zero) = ready
rtype_of (suc (suc zero)) = cl_qry
rtype_of (suc (suc (suc zero))) = cl_rsp
rtype_of (suc (suc (suc (suc zero)))) = cl_batch
rtype_of (suc (suc (suc (suc (suc zero))))) = execute_msg
rtype_of (suc (suc (suc (suc (suc (suc zero)))))) = pbft_pre_msg
rtype_of (suc (suc (suc (suc (suc (suc (suc zero))))))) = batch_req
rtype_of (suc (suc (suc (suc (suc (suc (suc (suc zero)))))))) = pbft_prep_msg
rtype_of (suc (suc (suc (suc (suc (suc (suc (suc (suc zero))))))))) = pbft_commit_msg
rtype_of (suc (suc (suc (suc (suc (suc (suc (suc (suc (suc zero)))))))))) = pbft_chkpt_msg
rtype_of (suc (suc (suc (suc (suc (suc (suc (suc (suc (suc (suc zero))))))))))) = pbft_view_change
rtype_of (suc (suc (suc (suc (suc (suc (suc (suc (suc (suc (suc (suc n)))))))))))) = pbft_new_view

abbrev rtype_wire : Wire RemReqType
rtype_wire = record {
  size = 4;
  to_bytes = λ x. le_bytes 4 (rtype_code x);
  of_bytes = λ bs. rtype_of (le_value bs);
}

rtype_back : (x : RemReqType) → Unit {0} → rtype_of (le_value (le_bytes 4 (rtype_code x))) ≡ x
rtype_back keyex u = refl
rtype_back ready u = refl
rtype_back cl_qry u = refl
rtype_back cl_rsp u = refl
rtype_back cl_batch u = refl
rtype_back execute_msg u = refl
rtype_back pbft_pre_msg u = refl
rtype_back batch_req u = refl
rtype_back pbft_prep_msg u = refl
rtype_back pbft_commit_msg u = refl
rtype_back pbft_chkpt_msg u = refl
rtype_back pbft_view_change u = refl
rtype_back pbft_new_view u = refl

rtype_laws : WireLaws rtype_wire (λ _. Unit {0})
rtype_laws = record {
  length-to_bytes = λ x. length-le_bytes 4 (rtype_code x);
  of_bytes-to_bytes = rtype_back;
}

abbrev qry_type_code : QryType → ℕ
qry_type_code algorand_init = 0
qry_type_code algorand_getkey = 1
qry_type_code algorand_sort = 2
qry_type_code algorand_verify = 3
qry_type_code algorand_count_v = 4
qry_type_code algorand_reset = 5

abbrev qry_type_of : ℕ → QryType
qry_type_of zero = algorand_init
qry_type_of (suc zero) = algorand_getkey
qry_type_of (suc (suc zero)) = algorand_sort
qry_type_of (suc (suc (suc zero))) = algorand_verify
qry_type_of (suc (suc (suc (suc zero)))) = algorand_count_v
qry_type_of (suc (suc (suc (suc (suc n))))) = algorand_reset

abbrev qry_type_wire : Wire QryType
qry_type_wire = record {
  size = 4;
  to_bytes = λ x. le_bytes 4 (qry_type_code x);
  of_bytes = λ bs. qry_type_of (le_value bs);
}

qry_type_back : (x : QryType) → Unit {0} → qry_type_of (le_value (le_bytes 4 (qry_type_code x))) ≡ x
qry_type_back algorand_init u = refl
qry_type_back algorand_getkey u = refl
qry_type_back algorand_sort u = refl
qry_type_back algorand_verify u = refl
qry_type_back algorand_count_v u = refl
qry_type_back algorand_reset u = refl

qry_type_laws : WireLaws qry_type_wire (λ _. Unit {0})
qry_type_laws = record {
  length-to_bytes = λ x. length-le_bytes 4 (qry_type_code x);
  of_bytes-to_bytes = qry_type_back;
}

abbrev int_code : ℤ → ℕ
int_code (pos n) = n
int_code (negsuc n) = 2 ^ 32 - 1 - n

abbrev int_of : ℕ → ℤ
int_of v = if ltb v (2 ^ 31) then pos v else negsuc (2 ^ 32 - 1 - v)

abbrev pub FitsInt : ℤ → Type 0
FitsInt (pos n) = n < 2 ^ 31
FitsInt (negsuc n) = n < 2 ^ 31

abbrev int_wire : Wire ℤ
int_wire = record {
  size = 4;
  to_bytes = λ x. le_bytes 4 (int_code x);
  of_bytes = λ bs. int_of (le_value bs);
}

int_back : (x : ℤ) → FitsInt x → int_of (le_value (le_bytes 4 (int_code x))) ≡ x
int_back (pos n) h = rw (le_value_lem 4 n (omega arith)) (ground arith)
int_back (negsuc n) h = rw (le_value_lem 4 (2 ^ 32 - 1 - n) (omega arith)) (ground arith)

int_laws : WireLaws int_wire FitsInt
int_laws = record {
  length-to_bytes = λ x. length-le_bytes 4 (int_code x);
  of_bytes-to_bytes = int_back;
}

-- the value in the first cell
abbrev first : List ℕ → ℕ
first [] = 0
first (b ∷ bs) = b

abbrev cells : ℕ → Wire ℕ
cells k = record { size = suc k; to_bytes = λ v. v ∷ replicate k 0; of_bytes = first }

cells_laws : (k : ℕ) → WireLaws (cells k) (λ _. Unit {0})
cells_laws k = record {
  length-to_bytes = λ v. rw (length-replicate {A = ℕ} k 0) refl;
  of_bytes-to_bytes = λ v u. refl;
}

abbrev pub layout : Layout platform
layout = record {
  rtype = rtype_wire;
  u64 = number 8;
  u32 = number 4;
  int = int_wire;
  double = cells 7;
  qry_type = qry_type_wire;
  request = cells 0;
}

pub layout_laws : LayoutLaws platform layout FitsInt
layout_laws = record {
  rtype = rtype_laws;
  u64 = number_laws 8 (2 ^ 64) refl;
  u32 = u32_laws;
  int = int_laws;
  double = cells_laws 7;
  qry_type = qry_type_laws;
  request = cells_laws 0;
  double_size = refl;
}
