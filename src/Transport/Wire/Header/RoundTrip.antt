-- ===== src/Transport/Wire/Header/RoundTrip.antt =====
-- The header of a message: what is written, and what is read back (transport/message.cpp: mcopy_to_buf,
-- mcopy_from_buf, mget_size).
use algorand.Prelude.{
  ℕ, zero, suc, ◌^◌, ◌≡◌, ◌<◌, refl, List, [], ◌∷◌, ◌++◌, some, Text, codes, length, length-append,
  append_nil, drop, arith, leb, ap, sym, subst, ◌∙◌, true,
}
use algorand.Prelude.Int.{ℤ}
use algorand.Blockchain.Algorand.{DataPackage}
use algorand.Transport.Messages.{Message}
use algorand.Transport.Wire.Laws.{
  WireLaws, Writes, Reads, ⨾-Writes, skip-Writes, copy_buf-Writes, copy_string-Writes, >>=-Reads,
  give-Reads, lift-Reads, copy_val-Reads, buf_to_string-Reads,
}
use algorand.Transport.Wire.Header.{
  Layout, pad, copy_chars, overwrite, copy_into, pop_back, mget_size, copy_dp, mcopy_to_buf,
  copy_dp_from, mcopy_from_buf,
}
use algorand.System.Node.{Platform}
use algorand.System.Send.{empty_package}

-- What is documented of the representations: each object has the size of its type, and gives its value back. All the
-- 64-bit types have one size, that of `double` too. A number fits uint64_t below 2 ^ 64, and uint32_t below 2 ^ 32; what fits `int`
-- is a parameter.
pub record LayoutLaws (P : Platform) (W : Layout P) (FitsInt : ℤ → Type 0) : Type 0 where
  pub rtype : WireLaws W.rtype (λ _. Unit {0})
  pub u64 : WireLaws W.u64 (λ n. n < 2 ^ 64)
  pub u32 : WireLaws W.u32 (λ n. n < 2 ^ 32)
  pub int : WireLaws W.int FitsInt
  pub double : WireLaws W.double (λ _. Unit {0})
  pub qry_type : WireLaws W.qry_type (λ _. Unit {0})
  pub request : WireLaws W.request (λ _. Unit {0})
  pub double_size : W.double.size ≡ W.u64.size

-- a data package with texts of the sizes that the buffer has room for
pub record FitsPackage (FitsInt : ℤ → Type 0) (dp : DataPackage) : Type 0 where
  pub seed : length dp.seed ≡ 20
  pub hash : length dp.hash ≡ 20
  pub proof : length dp.proof ≡ 256
  pub value : length dp.value ≡ 64
  pub pk : length dp.pk ≡ 426
  pub j : FitsInt dp.j
  pub node_id : FitsInt dp.node_id

pub record FitsMessage {R : Type 0} (FitsInt : ℤ → Type 0) (m : Message R) : Type 0 where
  pub txn_id : m.txn_id < 2 ^ 64
  pub mq_time : m.mq_time < 2 ^ 64
  pub sig_small : m.sig_size < 2 ^ 64
  pub key_small : m.key_size < 2 ^ 64
  pub sig_size : m.sig_size ≡ length m.signature
  pub key_size : m.key_size ≡ length m.pub_key
  pub dp : FitsPackage FitsInt m.dp

-- a message that create_message has made and nothing has been read into
pub record IsFresh {R : Type 0} (m : Message R) : Type 0 where
  pub signature : m.signature ≡ codes "0"
  pub pub_key : m.pub_key ≡ codes "0"
  pub dp : m.dp ≡ empty_package

pad_exact : (n : ℕ) (text : Text) (v : ℕ) → length text ≡ n → (pad n text v).0 ≡ text
unfolding pad
pad_exact zero [] v h = refl
pad_exact zero (c ∷ text) v h = absurd (omega arith)
pad_exact (suc n) [] v h = absurd (omega arith)
pad_exact (suc n) (c ∷ text) v h = ap (λ t. c ∷ t) (pad_exact n text c (omega arith))

copy_chars-Writes : (text : Text) → Writes (copy_chars text) text
unfolding copy_chars
copy_chars-Writes text = record { writes = λ buf p. refl }

pad-Writes :
    (n : ℕ) (text : Text) (v : ℕ) → length text ≡ n → Writes (copy_chars (pad n text v).0) text
pad-Writes n text v h = rw (pad_exact n text v h) (copy_chars-Writes text)

drop_all : {A : Type 0} (xs : List A) → drop (length xs) xs ≡ []
drop_all [] = refl
drop_all (x ∷ xs) = drop_all xs

drop_same : (chars text : Text) → length chars ≡ length text → drop (length chars) text ≡ []
drop_same chars text h = rw (h, drop_all text)

overwrite_same :
    (chars text : Text) → length chars ≡ length text → overwrite chars text ≡ some chars
unfolding overwrite
overwrite_same chars text h =
    let enough : leb (length chars) (length text) ≡ true = ground arith in
    rw (enough, drop_same chars text h, append_nil chars)

copy_into-Reads :
    (n : ℕ) (chars text : Text)
    → length chars ≡ n
    → length text ≡ n
    → Reads (copy_into n text) chars chars
unfolding copy_into
copy_into-Reads n chars text h k =
    subst (λ bs. Reads (copy_into n text) bs chars) (append_nil chars)
      (>>=-Reads _ (buf_to_string-Reads n chars (sym h))
        (lift-Reads (overwrite chars text) chars (overwrite_same chars text (h ∙ sym k))))

pop_placeholder : (text : Text) → text ≡ codes "0" → pop_back text ≡ some []
unfolding pop_back
pop_placeholder text h = rw h

module _ (P : Platform) (W : Layout P) (FitsInt : ℤ → Type 0) (L : LayoutLaws P W FitsInt) where
  open P.D use {Double, sub}

  pub package_bytes : DataPackage → List ℕ
  package_bytes dp =
      dp.seed
      ++ (dp.hash
          ++ (dp.proof
              ++ (dp.value
                  ++ (W.int.to_bytes dp.j
                      ++ (W.int.to_bytes dp.node_id
                          ++ (dp.pk ++ (W.qry_type.to_bytes dp.type ++ [])))))))

  copy_dp-Writes :
      (v : ℕ) (dp : DataPackage)
      → FitsPackage FitsInt dp
      → Writes (copy_dp P W v dp) (package_bytes dp)
  unfolding copy_dp package_bytes
  copy_dp-Writes v dp f = ⨾-Writes (pad-Writes 20 dp.seed _ f.seed) (
      ⨾-Writes (pad-Writes 20 dp.hash _ f.hash) (
        ⨾-Writes (pad-Writes 256 dp.proof _ f.proof) (
          ⨾-Writes (pad-Writes 64 dp.value _ f.value) (
            ⨾-Writes (copy_buf-Writes L.int dp.j) (
              ⨾-Writes (copy_buf-Writes L.int dp.node_id) (
                ⨾-Writes (pad-Writes 426 dp.pk _ f.pk)
                  (⨾-Writes (copy_buf-Writes L.qry_type dp.type) (skip-Writes))))))))

  copy_dp_from-Reads :
      (old dp : DataPackage)
      → FitsPackage FitsInt dp
      → old ≡ empty_package
      → Reads (copy_dp_from P W old) (package_bytes dp) dp
  unfolding copy_dp_from package_bytes
  copy_dp_from-Reads old dp f e = rw e (
      >>=-Reads _ (copy_into-Reads 20 dp.seed _ f.seed refl) (
        >>=-Reads _ (copy_into-Reads 20 dp.hash _ f.hash refl) (
          >>=-Reads _ (copy_into-Reads 256 dp.proof _ f.proof refl) (
            >>=-Reads _ (copy_into-Reads 64 dp.value _ f.value refl) (
              >>=-Reads _ (copy_val-Reads L.int dp.j f.j) (
                >>=-Reads _ (copy_val-Reads L.int dp.node_id f.node_id) (
                  >>=-Reads _ (copy_into-Reads 426 dp.pk _ f.pk refl)
                    (>>=-Reads _ (copy_val-Reads L.qry_type dp.type tt) (give-Reads dp)))))))))

  -- the bytes of the header of a message that is written at the time `now`
  pub header_bytes : Double → Message Double → List ℕ
  header_bytes now m =
      (W.rtype.to_bytes m.rtype
        ++ (W.u64.to_bytes m.txn_id
            ++ (W.u64.to_bytes m.mq_time
                ++ (W.double.to_bytes m.lat.work_queue
                    ++ (W.double.to_bytes m.lat.msg_queue
                        ++ (W.double.to_bytes m.lat.cc_block
                            ++ (W.double.to_bytes m.lat.cc_time
                                ++ (W.double.to_bytes m.lat.process_time
                                    ++ (W.double.to_bytes now
                                        ++ (W.double.to_bytes m.lat.other
                                            ++ (W.u64.to_bytes m.sig_size
                                                ++ (W.u64.to_bytes m.key_size
                                                    ++ (m.signature
                                                        ++ (m.pub_key
                                                            ++ (package_bytes m.dp
                                                            ++ [])))))))))))))))

  -- the header of `m`, written at the time `now`, as a fresh message that reads it at the time `now'` has it
  abbrev pub received : Double → Double → Message Double → Message Double → Message Double
  received now now' m0 m = record m0 {
    rtype = m.rtype;
    txn_id = m.txn_id;
    mq_time = m.mq_time;
    sig_size = m.sig_size;
    key_size = m.key_size;
    signature = m.signature;
    pub_key = m.pub_key;
    dp = m.dp;
    lat = record m.lat { network = sub (sub now' now) m.lat.other };
  }

  pub mcopy_to_buf-Writes :
      (now : Double) (m : Message Double)
      → FitsMessage FitsInt m
      → Writes (mcopy_to_buf P W now m) (header_bytes now m)
  unfolding mcopy_to_buf header_bytes
  mcopy_to_buf-Writes now m f = ⨾-Writes (copy_buf-Writes L.rtype m.rtype) (
      ⨾-Writes (copy_buf-Writes L.u64 m.txn_id) (
        ⨾-Writes (copy_buf-Writes L.u64 m.mq_time) (
          ⨾-Writes (copy_buf-Writes L.double m.lat.work_queue) (
            ⨾-Writes (copy_buf-Writes L.double m.lat.msg_queue) (
              ⨾-Writes (copy_buf-Writes L.double m.lat.cc_block) (
                ⨾-Writes (copy_buf-Writes L.double m.lat.cc_time) (
                  ⨾-Writes (copy_buf-Writes L.double m.lat.process_time) (
                    ⨾-Writes (copy_buf-Writes L.double now) (
                      ⨾-Writes (copy_buf-Writes L.double m.lat.other) (
                        ⨾-Writes (copy_buf-Writes L.u64 m.sig_size) (
                          ⨾-Writes (copy_buf-Writes L.u64 m.key_size) (
                            ⨾-Writes (copy_string-Writes m.sig_size m.signature f.sig_size) (
                              ⨾-Writes (copy_string-Writes m.key_size m.pub_key f.key_size)
                                (⨾-Writes (copy_dp-Writes _ m.dp f.dp) skip-Writes))))))))))))))

  pub mcopy_from_buf-Reads :
      (now now' : Double) (m0 m : Message Double)
      → IsFresh m0
      → FitsMessage FitsInt m
      → Reads (mcopy_from_buf P W now' m0) (header_bytes now m) (received now now' m0 m)
  unfolding mcopy_from_buf header_bytes
  mcopy_from_buf-Reads now now' m0 m fresh f = >>=-Reads _ (copy_val-Reads L.rtype m.rtype tt) (
      >>=-Reads _ (copy_val-Reads L.u64 m.txn_id f.txn_id) (
        >>=-Reads _ (copy_val-Reads L.u64 m.mq_time f.mq_time) (
          >>=-Reads _ (copy_val-Reads L.double m.lat.work_queue tt) (
            >>=-Reads _ (copy_val-Reads L.double m.lat.msg_queue tt) (
              >>=-Reads _ (copy_val-Reads L.double m.lat.cc_block tt) (
                >>=-Reads _ (copy_val-Reads L.double m.lat.cc_time tt) (
                  >>=-Reads _ (copy_val-Reads L.double m.lat.process_time tt) (
                    >>=-Reads _ (copy_val-Reads L.double now tt) (
                      >>=-Reads _ (copy_val-Reads L.double m.lat.other tt) (
                        >>=-Reads _ (copy_val-Reads L.u64 m.sig_size f.sig_small) (
                          >>=-Reads _ (copy_val-Reads L.u64 m.key_size f.key_small) (
                            >>=-Reads _
                              (lift-Reads _ [] (pop_placeholder m0.signature fresh.signature))
                              (>>=-Reads _
                                (lift-Reads _ [] (pop_placeholder m0.pub_key fresh.pub_key))
                                (>>=-Reads _ (buf_to_string-Reads m.sig_size m.signature f.sig_size)
                                  (>>=-Reads _ (buf_to_string-Reads m.key_size m.pub_key f.key_size)
                                    (>>=-Reads _ (copy_dp_from-Reads m0.dp m.dp f.dp fresh.dp)
                                      (give-Reads _)))))))))))))))))

  pub length-header_bytes :
      (now : Double) (m : Message Double)
      → FitsMessage FitsInt m
      → length (header_bytes now m) ≡ mget_size P W m
  unfolding header_bytes mget_size package_bytes
  length-header_bytes now m f =
      simp
        (
          length-append, L.rtype.length-to_bytes, L.u64.length-to_bytes, L.int.length-to_bytes,
          L.double.length-to_bytes, L.qry_type.length-to_bytes, f.dp.seed, f.dp.hash, f.dp.proof,
          f.dp.value, f.dp.pk, L.double_size,
        )
        (omega arith)

  pub mget_size-received :
      (now now' : Double) (m0 m : Message Double)
      → mget_size P W (received now now' m0 m) ≡ mget_size P W m
  unfolding mget_size
  mget_size-received now now' m0 m = refl

  pub header_bytes-rtype :
      (now : Double) (m : Message Double)
      → (rest : List ℕ) × (header_bytes now m ≡ W.rtype.to_bytes m.rtype ++ rest)
  unfolding header_bytes
  header_bytes-rtype now m = (_, refl)
