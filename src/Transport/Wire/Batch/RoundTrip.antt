-- ===== src/Transport/Wire/Batch/RoundTrip.antt =====
-- ClientQueryBatch through a buffer and back (transport/message.cpp).
use algorand.Prelude.{
  ℕ, ◌+◌, ◌^◌, ◌≡◌, ◌<◌, sym, List, [], ◌++◌, some, length, length-append, arith,
}
use algorand.Prelude.Int.{ℤ}
use algorand.Transport.Messages.{cl_batch, Message, ClientQueryBatch}
use algorand.Transport.Wire.{Buffer}
use algorand.Transport.Wire.Laws.{
  Writes, Reads, ⨾-Writes, skip-Writes, copy_buf-Writes, >>=-Reads, give-Reads, copy_val-Reads,
  round_trip,
}
use algorand.Transport.Wire.Laws.Lists.{AllFit}
use algorand.Transport.Wire.Header.{Layout, mget_size}
use algorand.Transport.Wire.Header.RoundTrip.{
  LayoutLaws, FitsMessage, header_bytes, header_bytes-rtype,
}
use algorand.Transport.Wire.Header.Framed.{
  fresh_copy, frame_to_buf-Writes, frame_from_buf-Reads, length-framed, framed-rtype,
}
use algorand.Transport.Wire.Nested.Laws.{
  FitsNested, queries_bytes, queries_copy, queries_size-copy, length-queries_bytes,
  copy_queries-Writes, read_queries-Reads,
}
use algorand.Transport.Wire.Batch.{
  query_batch_size, batch_fields, batch_fields_from, batch_to_buf, batch_from_buf,
}
use algorand.System.Node.{Platform, Config}

pub record FitsBatch (P : Platform) (c : Config) (FitsInt : ℤ → Type 0) (g_synth_table_size : ℕ)
    (m : ClientQueryBatch P.D.Double P.Request) : Type 0 where
  pub base : FitsMessage FitsInt m.base
  pub return_node : m.return_node < 2 ^ 64
  pub batch_size : m.batch_size < 2 ^ 32
  pub length_cqry_set : length m.cqry_set ≡ c.g_batch_size
  pub cqry_set : AllFit (FitsNested P FitsInt g_synth_table_size) m.cqry_set

module _ (P : Platform) (c : Config) (W : Layout P) (FitsInt : ℤ → Type 0)
    (L : LayoutLaws P W FitsInt) (g_synth_table_size : ℕ) where
  open P.D use {Double}
  open P use {Request}
  open W use {u32, u64}

  field_bytes : (ℕ → Double) → ClientQueryBatch Double Request → List ℕ
  field_bytes clock m =
      u64.to_bytes m.return_node
      ++ (u32.to_bytes m.batch_size
          ++ (queries_bytes P c W FitsInt L g_synth_table_size clock 1 m.cqry_set ++ []))

  batch_fields-Writes :
      (clock : ℕ → Double) (m : ClientQueryBatch Double Request)
      → FitsBatch P c FitsInt g_synth_table_size m
      → Writes (batch_fields P c W g_synth_table_size clock m) (field_bytes clock m)
  unfolding batch_fields field_bytes
  batch_fields-Writes clock m f = ⨾-Writes (copy_buf-Writes L.u64 m.return_node) (
      ⨾-Writes (copy_buf-Writes L.u32 m.batch_size) (
        ⨾-Writes
          (copy_queries-Writes P c W FitsInt L g_synth_table_size clock c.g_batch_size 1 m.cqry_set
            f.length_cqry_set f.cqry_set)
          skip-Writes))

  -- the message of the copy that was written with the clock `clock` and is read with the clock `clock'`
  abbrev pub batch_copy :
      (clock clock' : ℕ → Double)
      → ClientQueryBatch Double Request
      → ClientQueryBatch Double Request
  batch_copy clock clock' m = record m {
    base = fresh_copy P c W FitsInt L (clock 0) (clock' 0) cl_batch m.base;
    cqry_set = queries_copy P c W FitsInt L g_synth_table_size clock clock' 1 m.cqry_set;
  }

  batch_fields_from-Reads :
      (clock clock' : ℕ → Double) (m : ClientQueryBatch Double Request)
      → FitsBatch P c FitsInt g_synth_table_size m
      → Reads
          (batch_fields_from P c W g_synth_table_size clock'
            (fresh_copy P c W FitsInt L (clock 0) (clock' 0) cl_batch m.base))
          (field_bytes clock m)
          (batch_copy clock clock' m)
  unfolding batch_fields_from field_bytes
  batch_fields_from-Reads clock clock' m f =
      >>=-Reads _ (copy_val-Reads L.u64 m.return_node f.return_node) (
        >>=-Reads _ (copy_val-Reads L.u32 m.batch_size f.batch_size) (
          >>=-Reads _
            (read_queries-Reads P c W FitsInt L g_synth_table_size clock clock' c.g_batch_size 1
              m.cqry_set f.length_cqry_set f.cqry_set)
            (give-Reads _)))

  length-field_bytes :
      (clock : ℕ → Double) (m : ClientQueryBatch Double Request)
      → FitsBatch P c FitsInt g_synth_table_size m
      → (base : Message Double)
      → mget_size P W base + length (field_bytes clock m)
        ≡ query_batch_size P c W g_synth_table_size (record m { base = base })
  unfolding field_bytes query_batch_size
  length-field_bytes clock m f base =
      simp
        (
          length-append,
          L.u64.length-to_bytes,
          L.u32.length-to_bytes,
          length-queries_bytes P c W FitsInt L g_synth_table_size clock c.g_batch_size 1 m.cqry_set
              f.length_cqry_set f.cqry_set,
        )
        (omega arith)

  pub batch_bytes : (ℕ → Double) → ClientQueryBatch Double Request → List ℕ
  batch_bytes clock m = header_bytes P W FitsInt L (clock 0) m.base ++ field_bytes clock m

  pub batch_bytes-rtype :
      (clock : ℕ → Double) (m : ClientQueryBatch Double Request)
      → (rest : List ℕ) × (batch_bytes clock m ≡ W.rtype.to_bytes m.rtype ++ rest)
  unfolding batch_bytes
  batch_bytes-rtype clock m =
      framed-rtype P c W FitsInt L m.rtype (field_bytes clock m)
        (header_bytes-rtype P W FitsInt L (clock 0) m.base)

  pub length-batch_bytes :
      (clock : ℕ → Double) (m : ClientQueryBatch Double Request)
      → FitsBatch P c FitsInt g_synth_table_size m
      → length (batch_bytes clock m) ≡ query_batch_size P c W g_synth_table_size m
  unfolding batch_bytes
  length-batch_bytes clock m f =
      length-framed P c W FitsInt L (field_bytes clock m) (clock 0) m.base f.base
        (length-field_bytes clock m f m.base)

  pub batch_to_buf-Writes :
      (clock : ℕ → Double) (m : ClientQueryBatch Double Request)
      → FitsBatch P c FitsInt g_synth_table_size m
      → Writes (batch_to_buf P c W g_synth_table_size clock m) (batch_bytes clock m)
  unfolding batch_to_buf batch_bytes
  batch_to_buf-Writes clock m f =
      frame_to_buf-Writes P c W FitsInt L (clock 0) m.base f.base (batch_fields-Writes clock m f)
        (length-field_bytes clock m f m.base)

  query_batch_size-copy :
      (clock clock' : ℕ → Double) (m : ClientQueryBatch Double Request)
      → FitsBatch P c FitsInt g_synth_table_size m
      → mget_size P W (batch_copy clock clock' m).base + length (field_bytes clock m)
        ≡ query_batch_size P c W g_synth_table_size (batch_copy clock clock' m)
  unfolding query_batch_size
  query_batch_size-copy clock clock' m f =
      rw
        (queries_size-copy P c W FitsInt L g_synth_table_size clock clock' c.g_batch_size 1
          m.cqry_set)
        (length-field_bytes clock m f _)

  pub batch_from_buf-Reads :
      (clock clock' : ℕ → Double) (m : ClientQueryBatch Double Request)
      → FitsBatch P c FitsInt g_synth_table_size m
      → Reads
          (batch_from_buf P c W g_synth_table_size clock')
          (batch_bytes clock m)
          (batch_copy clock clock' m)
  unfolding batch_from_buf batch_bytes
  batch_from_buf-Reads clock clock' m f =
      frame_from_buf-Reads P c W FitsInt L (batch_fields_from P c W g_synth_table_size clock')
        (query_batch_size P c W g_synth_table_size) (clock 0) (clock' 0) cl_batch m.base f.base
        (batch_fields_from-Reads clock clock' m f) (query_batch_size-copy clock clock' m f)

  -- ClientQueryBatch, which carries client queries: under the documented laws of the representations, when there are
  -- g_batch_size queries of type CL_QRY that fit, with keys below g_synth_table_size, and the fields fit their
  -- types, copy_to_buf and then copy_from_buf into a new message succeed, their asserts included, move on by
  -- get_size and give the message back, with its queries, all but the fields of the base class that are not sent.
  pub batch_to_buf-batch_from_buf :
      (clock clock' : ℕ → Double) (m : ClientQueryBatch Double Request)
      → FitsBatch P c FitsInt g_synth_table_size m
      → (buf : Buffer) (p : ℕ)
      → (buf' : Buffer) × (batch_to_buf P c W g_synth_table_size clock m buf p
          ≡ some (buf', p + query_batch_size P c W g_synth_table_size m))
        × (batch_from_buf P c W g_synth_table_size clock' buf' p
            ≡ some (batch_copy clock clock' m, p + query_batch_size P c W g_synth_table_size m))
  batch_to_buf-batch_from_buf clock clock' m f buf p =
      rw (sym (length-batch_bytes clock m f))
        (round_trip (batch_to_buf-Writes clock m f) (batch_from_buf-Reads clock clock' m f) buf p)
