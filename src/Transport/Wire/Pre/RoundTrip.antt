-- ===== src/Transport/Wire/Pre/RoundTrip.antt =====
-- PBFTPreMessage through a buffer and back (transport/message.cpp).
use algorand.Prelude.{ℕ, ◌+◌, ◌^◌, ◌≡◌, ◌<◌, refl, List, [], ◌++◌, length, length-append, arith}
use algorand.Prelude.Int.{ℤ}
use algorand.Transport.Messages.{pbft_pre_msg, Message, PbftPreMessage}
use algorand.Transport.Wire.Laws.{
  Writes, Reads, ⨾-Writes, skip-Writes, copy_buf-Writes, copy_string-Writes, >>=-Reads, give-Reads,
  copy_val-Reads, buf_to_string-Reads,
}
use algorand.Transport.Wire.Header.{Layout, mget_size}
use algorand.Transport.Wire.Header.RoundTrip.{
  LayoutLaws, FitsMessage, header_bytes, header_bytes-rtype,
}
use algorand.Transport.Wire.Header.Framed.{
  fresh_copy, frame_to_buf-Writes, frame_from_buf-Reads, length-framed, framed-rtype,
}
use algorand.Transport.Wire.Nested.Laws.{FitsNested, nested_query-Reads}
use algorand.Transport.Wire.Query.RoundTrip.{
  ycsb_bytes, ycsb_copy, length-ycsb_bytes, ycsb_to_buf-Writes, ycsb_size-copy,
}
use algorand.Transport.Wire.Pre.{pre_size, pre_fields, pre_fields_from, pre_to_buf, pre_from_buf}
use algorand.System.Node.{Platform, Config}

pub record FitsPre (P : Platform) (c : Config) (FitsInt : ℤ → Type 0) (g_synth_table_size : ℕ)
    (m : PbftPreMessage P.D.Double P.Request) : Type 0 where
  pub base : FitsMessage FitsInt m.base
  pub view : m.view < 2 ^ 64
  pub index : m.index < 2 ^ 64
  pub hash_small : m.hash_size < 2 ^ 64
  pub hash_size : m.hash_size ≡ length m.hash
  pub request_msg : FitsNested P FitsInt g_synth_table_size m.request_msg

module _ (P : Platform) (c : Config) (W : Layout P) (FitsInt : ℤ → Type 0)
    (L : LayoutLaws P W FitsInt) (g_synth_table_size : ℕ) where
  open P.D use {Double}
  open P use {Request}
  open W use {u64}

  field_bytes : (ℕ → Double) → PbftPreMessage Double Request → List ℕ
  field_bytes clock m =
      u64.to_bytes m.view
      ++ (u64.to_bytes m.index
          ++ (u64.to_bytes m.hash_size
              ++ (m.hash
                  ++ (ycsb_bytes P c W FitsInt L g_synth_table_size (clock 1) m.request_msg
                      ++ []))))

  pre_fields-Writes :
      (clock : ℕ → Double) (m : PbftPreMessage Double Request)
      → FitsPre P c FitsInt g_synth_table_size m
      → Writes (pre_fields P c W g_synth_table_size clock m) (field_bytes clock m)
  unfolding pre_fields field_bytes
  pre_fields-Writes clock m f = ⨾-Writes (copy_buf-Writes L.u64 m.view) (
      ⨾-Writes (copy_buf-Writes L.u64 m.index) (
        ⨾-Writes (copy_buf-Writes L.u64 m.hash_size) (
          ⨾-Writes (copy_string-Writes (length m.hash) m.hash refl) (
            ⨾-Writes
              (ycsb_to_buf-Writes P c W FitsInt L g_synth_table_size (clock 1) m.request_msg
                f.request_msg.query)
              skip-Writes))))

  -- the message of the copy that was written with the clock `clock` and is read with the clock `clock'`
  abbrev pub pre_copy :
      (clock clock' : ℕ → Double) → PbftPreMessage Double Request → PbftPreMessage Double Request
  pre_copy clock clock' m = record m {
    base = fresh_copy P c W FitsInt L (clock 0) (clock' 0) pbft_pre_msg m.base;
    request_msg = ycsb_copy P c W FitsInt L g_synth_table_size (clock 1) (clock' 1) m.request_msg;
  }

  pre_fields_from-Reads :
      (clock clock' : ℕ → Double) (m : PbftPreMessage Double Request)
      → FitsPre P c FitsInt g_synth_table_size m
      → Reads
          (pre_fields_from P c W g_synth_table_size clock'
            (fresh_copy P c W FitsInt L (clock 0) (clock' 0) pbft_pre_msg m.base))
          (field_bytes clock m)
          (pre_copy clock clock' m)
  unfolding pre_fields_from field_bytes
  pre_fields_from-Reads clock clock' m f = >>=-Reads _ (copy_val-Reads L.u64 m.view f.view) (
      >>=-Reads _ (copy_val-Reads L.u64 m.index f.index) (
        >>=-Reads _ (copy_val-Reads L.u64 m.hash_size f.hash_small) (
          >>=-Reads _ (buf_to_string-Reads m.hash_size m.hash f.hash_size) (
            >>=-Reads _
              (nested_query-Reads P c W FitsInt L g_synth_table_size (clock 1) (clock' 1)
                m.request_msg f.request_msg)
              (give-Reads _)))))

  length-field_bytes :
      (clock : ℕ → Double) (m : PbftPreMessage Double Request)
      → FitsPre P c FitsInt g_synth_table_size m
      → (base : Message Double)
      → mget_size P W base + length (field_bytes clock m)
        ≡ pre_size P c W g_synth_table_size (record m { base = base })
  unfolding field_bytes pre_size
  length-field_bytes clock m f base =
      simp
        (
          length-append,
          L.u64.length-to_bytes,
          length-ycsb_bytes P c W FitsInt L g_synth_table_size (clock 1) m.request_msg
              f.request_msg.query,
        )
        (omega arith)

  pub pre_bytes : (ℕ → Double) → PbftPreMessage Double Request → List ℕ
  pre_bytes clock m = header_bytes P W FitsInt L (clock 0) m.base ++ field_bytes clock m

  pub pre_bytes-rtype :
      (clock : ℕ → Double) (m : PbftPreMessage Double Request)
      → (rest : List ℕ) × (pre_bytes clock m ≡ W.rtype.to_bytes m.rtype ++ rest)
  unfolding pre_bytes
  pre_bytes-rtype clock m =
      framed-rtype P c W FitsInt L m.rtype (field_bytes clock m)
        (header_bytes-rtype P W FitsInt L (clock 0) m.base)

  pub length-pre_bytes :
      (clock : ℕ → Double) (m : PbftPreMessage Double Request)
      → FitsPre P c FitsInt g_synth_table_size m
      → length (pre_bytes clock m) ≡ pre_size P c W g_synth_table_size m
  unfolding pre_bytes
  length-pre_bytes clock m f =
      length-framed P c W FitsInt L (field_bytes clock m) (clock 0) m.base f.base
        (length-field_bytes clock m f m.base)

  pub pre_to_buf-Writes :
      (clock : ℕ → Double) (m : PbftPreMessage Double Request)
      → FitsPre P c FitsInt g_synth_table_size m
      → Writes (pre_to_buf P c W g_synth_table_size clock m) (pre_bytes clock m)
  unfolding pre_to_buf pre_bytes
  pre_to_buf-Writes clock m f =
      frame_to_buf-Writes P c W FitsInt L (clock 0) m.base f.base (pre_fields-Writes clock m f)
        (length-field_bytes clock m f m.base)

  pre_size-copy :
      (clock clock' : ℕ → Double) (m : PbftPreMessage Double Request)
      → FitsPre P c FitsInt g_synth_table_size m
      → mget_size P W (pre_copy clock clock' m).base + length (field_bytes clock m)
        ≡ pre_size P c W g_synth_table_size (pre_copy clock clock' m)
  unfolding pre_size
  pre_size-copy clock clock' m f =
      rw (ycsb_size-copy P c W FitsInt L g_synth_table_size (clock 1) (clock' 1) m.request_msg)
        (length-field_bytes clock m f _)

  pub pre_from_buf-Reads :
      (clock clock' : ℕ → Double) (m : PbftPreMessage Double Request)
      → FitsPre P c FitsInt g_synth_table_size m
      → Reads
          (pre_from_buf P c W g_synth_table_size clock')
          (pre_bytes clock m)
          (pre_copy clock clock' m)
  unfolding pre_from_buf pre_bytes
  pre_from_buf-Reads clock clock' m f =
      frame_from_buf-Reads P c W FitsInt L (pre_fields_from P c W g_synth_table_size clock')
        (pre_size P c W g_synth_table_size) (clock 0) (clock' 0) pbft_pre_msg m.base f.base
        (pre_fields_from-Reads clock clock' m f) (pre_size-copy clock clock' m f)
