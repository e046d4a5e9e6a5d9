-- ===== src/Transport/Wire/Header.antt =====
-- transport/message.cpp: mget_size, mcopy_to_buf and mcopy_from_buf, the part of a buffer that all messages
-- share. With DBTYPE == REPLICATED each transaction is local, so only lat_network_time changes: it is the
-- clock when the message is written. The change of the sender's own copy of that field is left out.
pub mod RoundTrip
pub mod Framed
use algorand.Prelude.{
  ℕ, zero, suc, ◌+◌, ◌*◌, ◌≡◌, Bool, List, [], ◌∷◌, ◌++◌, Option, none, some, Text, length, drop,
  leb, if◌then◌else◌,
}
use algorand.Prelude.Int.{ℤ}
use algorand.Blockchain.Algorand.{QryType, DataPackage}
use algorand.Transport.Messages.{RemReqType, Message}
use algorand.Transport.Wire.{
  Wire, Writer, ◌⨾◌, skip, copy_buf, copy_string, put_bytes, Reader, ◌>>=◌, give, lift, copy_val,
  buf_to_string,
}
use algorand.System.Node.{Platform}

-- the representation of each type that messages carry; uint64_t and size_t have the same, and so have
-- uint32_t and uint
pub record Layout (P : Platform) : Type 0 where
  pub rtype : Wire RemReqType
  pub u64 : Wire ℕ
  pub u32 : Wire ℕ
  pub int : Wire ℤ
  pub double : Wire P.D.Double
  pub qry_type : Wire QryType
  pub request : Wire P.Request

-- the constants ALGORAND_SEED_SIZE to ALGORAND_PK_SIZE
abbrev pub seed_size : ℕ
seed_size = 20

abbrev pub hash_size_of_dp : ℕ
hash_size_of_dp = 20

abbrev pub proof_size : ℕ
proof_size = 256

abbrev pub value_size : ℕ
value_size = 64

abbrev pub pk_size : ℕ
pk_size = 426

-- `n` characters of the text; past its end the variable `v` keeps its last value
pad : ℕ → Text → ℕ → Text × ℕ
pad zero text v = ([], v)
pad (suc n) [] v = let (rest, v') = pad n [] v in (v ∷ rest, v')
pad (suc n) (c ∷ text) v = let (rest, v') = pad n text c in (c ∷ rest, v')

last_of : Text → ℕ → ℕ
last_of [] v = v
last_of (c ∷ text) v = last_of text c

copy_chars : Text → Writer
copy_chars text buf p = some (put_bytes text buf p, p + length text)

-- `text[i] = v` for the characters that were read
overwrite : Text → Text → Option Text
overwrite chars text =
    if leb (length chars) (length text) then some (chars ++ drop (length chars) text) else none

copy_into : ℕ → Text → Reader Text
copy_into n text = do chars ← buf_to_string n; lift (overwrite chars text)

-- std::string::pop_back
pop_back : Text → Option Text
pop_back [] = none
pop_back (c ∷ []) = some []
pop_back (c ∷ (d ∷ text)) = elim (pop_back (d ∷ text)) [ none ↦ none | some rest ↦ some (c ∷ rest) ]

module _ (P : Platform) (W : Layout P) where
  open P.D use {Double, sub}
  open W use {rtype, u64, int, double, qry_type}

  pub mget_size : Message Double → ℕ
  mget_size m =
      rtype.size
      + u64.size
      + u64.size
      + length m.signature
      + length m.pub_key
      + u64.size
      + u64.size
      + seed_size
      + hash_size_of_dp
      + proof_size
      + value_size
      + int.size
      + int.size
      + pk_size
      + qry_type.size
      + 7 * u64.size

  -- A `v` that no character was written to yet is 0 here.
  copy_dp : ℕ → DataPackage → Writer
  copy_dp v0 dp =
      let (seed, v1) = pad seed_size dp.seed v0 in
      let (hash, v2) = pad hash_size_of_dp dp.hash v1 in
      let (proof, v3) = pad proof_size dp.proof v2 in
      let (value, v4) = pad value_size dp.value v3 in
      let (pk, v5) = pad pk_size dp.pk v4 in
      copy_chars seed
      ⨾ copy_chars hash
      ⨾ copy_chars proof
      ⨾ copy_chars value
      ⨾ copy_buf int dp.j
      ⨾ copy_buf int dp.node_id
      ⨾ copy_chars pk
      ⨾ copy_buf qry_type dp.type
      ⨾ skip

  -- `now` is what get_sys_clock returns, as a double
  pub mcopy_to_buf : Double → Message Double → Writer
  mcopy_to_buf now m =
      copy_buf rtype m.rtype
      ⨾ copy_buf u64 m.txn_id
      ⨾ copy_buf u64 m.mq_time
      ⨾ copy_buf double m.lat.work_queue
      ⨾ copy_buf double m.lat.msg_queue
      ⨾ copy_buf double m.lat.cc_block
      ⨾ copy_buf double m.lat.cc_time
      ⨾ copy_buf double m.lat.process_time
      ⨾ copy_buf double now
      ⨾ copy_buf double m.lat.other
      ⨾ copy_buf u64 m.sig_size
      ⨾ copy_buf u64 m.key_size
      ⨾ copy_string m.sig_size m.signature
      ⨾ copy_string m.key_size m.pub_key
      ⨾ copy_dp (last_of m.pub_key (last_of m.signature 0)) m.dp
      ⨾ skip

  -- what is read into the data package of a message
  copy_dp_from : DataPackage → Reader DataPackage
  copy_dp_from dp = do
    seed ← copy_into seed_size dp.seed
    hash ← copy_into hash_size_of_dp dp.hash
    proof ← copy_into proof_size dp.proof
    value ← copy_into value_size dp.value
    j ← copy_val int
    node_id ← copy_val int
    pk ← copy_into pk_size dp.pk
    type ← copy_val qry_type
    give (record {
      seed = seed;
      hash = hash;
      proof = proof;
      value = value;
      j = j;
      node_id = node_id;
      pk = pk;
      type = type;
    })

  -- `m` is the message that create_message has made
  pub mcopy_from_buf : Double → Message Double → Reader (Message Double)
  mcopy_from_buf now m = do
    r ← copy_val rtype
    txn_id ← copy_val u64
    mq_time ← copy_val u64
    work_queue ← copy_val double
    msg_queue ← copy_val double
    cc_block ← copy_val double
    cc_time ← copy_val double
    process_time ← copy_val double
    network ← copy_val double
    other ← copy_val double
    sig_size ← copy_val u64
    key_size ← copy_val u64
    old_signature ← lift (pop_back m.signature)
    old_key ← lift (pop_back m.pub_key)
    signature ← buf_to_string sig_size
    pub_key ← buf_to_string key_size
    dp ← copy_dp_from m.dp
    give (record m {
      rtype = r;
      txn_id = txn_id;
      mq_time = mq_time;
      sig_size = sig_size;
      key_size = key_size;
      signature = old_signature ++ signature;
      pub_key = old_key ++ pub_key;
      dp = dp;
      lat = record {
        work_queue = work_queue;
        msg_queue = msg_queue;
        cc_block = cc_block;
        cc_time = cc_time;
        process_time = process_time;
        network = sub (sub now network) other;
        other = other;
      };
    })
