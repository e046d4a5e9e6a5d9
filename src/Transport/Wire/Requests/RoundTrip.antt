-- ===== src/Transport/Wire/Requests/RoundTrip.antt =====
-- BatchRequests through a buffer and back (transport/message.cpp).
use algorand.Prelude.{
  map, length-map, ℕ, ◌+◌, ◌^◌, ◌≡◌, ◌<◌, sym, List, [], ◌++◌, some, length, length-append, arith,
}
use algorand.Prelude.Int.{ℤ}
use algorand.Transport.Messages.{batch_req, Message, BatchRequests}
use algorand.Transport.Wire.{Buffer}
use algorand.Transport.Wire.Laws.{
  Writes, Reads, ⨾-Writes, skip-Writes, copy_buf-Writes, >>=-Reads, give-Reads, copy_val-Reads,
  round_trip,
}
use algorand.Transport.Wire.Laws.Lists.{AllFit}
use algorand.Transport.Wire.Header.{Layout, mget_size}
use algorand.Transport.Wire.Header.RoundTrip.{
  LayoutLaws, FitsMessage, header_bytes, header_bytes-rtype,
}
use algorand.Transport.Wire.Header.Framed.{
  fresh_copy, frame_to_buf-Writes, frame_from_buf-Reads, length-framed, framed-rtype,
}
use algorand.Transport.Wire.Nested.Laws.{FitsNested, queries_copy, queries_size-copy}
use algorand.Transport.Wire.Requests.Rows.{
  rows_bytes, copy_rows-Writes, read_rows-Reads, length-rows_bytes,
}
use algorand.Transport.Wire.Requests.{
  requests_size, requests_fields, requests_fields_from, requests_to_buf, requests_from_buf,
}
use algorand.System.Node.{Platform, Config}

pub record FitsRequests (P : Platform) (c : Config) (FitsInt : ℤ → Type 0) (g_synth_table_size : ℕ)
    (m : BatchRequests P.D.Double P.Request) : Type 0 where
  pub base : FitsMessage FitsInt m.base
  pub view : m.view < 2 ^ 64
  pub length_index : length m.index ≡ c.g_batch_size
  pub length_hash : length m.hash ≡ c.g_batch_size
  pub length_request_msg : length m.request_msg ≡ c.g_batch_size
  pub index : AllFit (λ n. n < 2 ^ 64) m.index
  pub hash_size : m.hash_size ≡ map length m.hash
  pub hash : AllFit (λ t. length t < 2 ^ 64) m.hash
  pub request_msg : AllFit (FitsNested P FitsInt g_synth_table_size) m.request_msg
  pub batch_size : m.batch_size < 2 ^ 32

module _ (P : Platform) (c : Config) (W : Layout P) (FitsInt : ℤ → Type 0)
    (L : LayoutLaws P W FitsInt) (g_synth_table_size : ℕ) where
  open P.D use {Double}
  open P use {Request}
  open W use {u32, u64}

  field_bytes : (ℕ → Double) → BatchRequests Double Request → List ℕ
  field_bytes clock m =
      u64.to_bytes m.view
      ++ (rows_bytes P c W FitsInt L g_synth_table_size clock 1 m.index m.hash m.request_msg
          ++ (u32.to_bytes m.batch_size ++ []))

  requests_fields-Writes :
      (clock : ℕ → Double) (m : BatchRequests Double Request)
      → FitsRequests P c FitsInt g_synth_table_size m
      → Writes (requests_fields P c W g_synth_table_size clock m) (field_bytes clock m)
  unfolding requests_fields field_bytes
  requests_fields-Writes clock m f = ⨾-Writes (copy_buf-Writes L.u64 m.view) (
      ⨾-Writes
        (rw f.hash_size (
          copy_rows-Writes P c W FitsInt L g_synth_table_size clock c.g_batch_size 1 m.index m.hash
            m.request_msg f.length_index f.length_hash f.length_request_msg f.request_msg))
        (⨾-Writes (copy_buf-Writes L.u32 m.batch_size) skip-Writes))

  -- the message of the copy that was written with the clock `clock` and is read with the clock `clock'`
  abbrev pub requests_copy :
      (clock clock' : ℕ → Double) → BatchRequests Double Request → BatchRequests Double Request
  requests_copy clock clock' m = record m {
    base = fresh_copy P c W FitsInt L (clock 0) (clock' 0) batch_req m.base;
    request_msg = queries_copy P c W FitsInt L g_synth_table_size clock clock' 1 m.request_msg;
  }

  requests_fields_from-Reads :
      (clock clock' : ℕ → Double) (m : BatchRequests Double Request)
      → FitsRequests P c FitsInt g_synth_table_size m
      → Reads
          (requests_fields_from P c W g_synth_table_size clock'
            (fresh_copy P c W FitsInt L (clock 0) (clock' 0) batch_req m.base))
          (field_bytes clock m)
          (requests_copy clock clock' m)
  unfolding requests_fields_from field_bytes
  requests_fields_from-Reads clock clock' m f = rw f.hash_size (
      >>=-Reads _ (copy_val-Reads L.u64 m.view f.view) (
        >>=-Reads _
          (read_rows-Reads P c W FitsInt L g_synth_table_size clock clock' c.g_batch_size 1 m.index
            m.hash m.request_msg f.length_index f.length_hash f.length_request_msg f.index f.hash
            f.request_msg)
          (>>=-Reads _ (copy_val-Reads L.u32 m.batch_size f.batch_size) (give-Reads _))))

  length-field_bytes :
      (clock : ℕ → Double) (m : BatchRequests Double Request)
      → FitsRequests P c FitsInt g_synth_table_size m
      → (base : Message Double)
      → mget_size P W base + length (field_bytes clock m)
        ≡ requests_size P c W g_synth_table_size (record m { base = base })
  unfolding field_bytes requests_size
  length-field_bytes clock m f base =
      let rows =
        length-rows_bytes P c W FitsInt L g_synth_table_size clock c.g_batch_size 1 m.index m.hash
          m.request_msg f.length_index f.length_hash f.length_request_msg f.request_msg in
      simp
        (
          length-append, L.u64.length-to_bytes, L.u32.length-to_bytes, rows, f.hash_size,
          length-map, f.length_index, f.length_hash,
        )
        (omega arith)

  pub requests_bytes : (ℕ → Double) → BatchRequests Double Request → List ℕ
  requests_bytes clock m = header_bytes P W FitsInt L (clock 0) m.base ++ field_bytes clock m

  pub requests_bytes-rtype :
      (clock : ℕ → Double) (m : BatchRequests Double Request)
      → (rest : List ℕ) × (requests_bytes clock m ≡ W.rtype.to_bytes m.rtype ++ rest)
  unfolding requests_bytes
  requests_bytes-rtype clock m =
      framed-rtype P c W FitsInt L m.rtype (field_bytes clock m)
        (header_bytes-rtype P W FitsInt L (clock 0) m.base)

  pub length-requests_bytes :
      (clock : ℕ → Double) (m : BatchRequests Double Request)
      → FitsRequests P c FitsInt g_synth_table_size m
      → length (requests_bytes clock m) ≡ requests_size P c W g_synth_table_size m
  unfolding requests_bytes
  length-requests_bytes clock m f =
      length-framed P c W FitsInt L (field_bytes clock m) (clock 0) m.base f.base
        (length-field_bytes clock m f m.base)

  pub requests_to_buf-Writes :
      (clock : ℕ → Double) (m : BatchRequests Double Request)
      → FitsRequests P c FitsInt g_synth_table_size m
      → Writes (requests_to_buf P c W g_synth_table_size clock m) (requests_bytes clock m)
  unfolding requests_to_buf requests_bytes
  requests_to_buf-Writes clock m f =
      frame_to_buf-Writes P c W FitsInt L (clock 0) m.base f.base (requests_fields-Writes clock m f)
        (length-field_bytes clock m f m.base)

  requests_size-copy :
      (clock clock' : ℕ → Double) (m : BatchRequests Double Request)
      → FitsRequests P c FitsInt g_synth_table_size m
      → mget_size P W (requests_copy clock clock' m).base + length (field_bytes clock m)
        ≡ requests_size P c W g_synth_table_size (requests_copy clock clock' m)
  unfolding requests_size
  requests_size-copy clock clock' m f =
      rw
        (queries_size-copy P c W FitsInt L g_synth_table_size clock clock' c.g_batch_size 1
          m.request_msg)
        (length-field_bytes clock m f _)

  pub requests_from_buf-Reads :
      (clock clock' : ℕ → Double) (m : BatchRequests Double Request)
      → FitsRequests P c FitsInt g_synth_table_size m
      → Reads
          (requests_from_buf P c W g_synth_table_size clock')
          (requests_bytes clock m)
          (requests_copy clock clock' m)
  unfolding requests_from_buf requests_bytes
  requests_from_buf-Reads clock clock' m f =
      frame_from_buf-Reads P c W FitsInt L (requests_fields_from P c W g_synth_table_size clock')
        (requests_size P c W g_synth_table_size) (clock 0) (clock' 0) batch_req m.base f.base
        (requests_fields_from-Reads clock clock' m f) (requests_size-copy clock clock' m f)

  -- BatchRequests, the message in which the primary proposes a batch: under the documented laws of the
  -- representations, when there are g_batch_size indices, hashes and queries, the sizes are those of the hashes, the
  -- queries have type CL_QRY and fit, with keys below g_synth_table_size, and all the fields fit their types,
  -- copy_to_buf and then copy_from_buf into a new message succeed, their asserts included, move on by get_size and
  -- give the message back, with its queries, all but the fields of the base class that are not sent.
  pub requests_to_buf-requests_from_buf :
      (clock clock' : ℕ → Double) (m : BatchRequests Double Request)
      → FitsRequests P c FitsInt g_synth_table_size m
      → (buf : Buffer) (p : ℕ)
      → (buf' : Buffer) × (requests_to_buf P c W g_synth_table_size clock m buf p
          ≡ some (buf', p + requests_size P c W g_synth_table_size m))
        × (requests_from_buf P c W g_synth_table_size clock' buf' p
            ≡ some (requests_copy clock clock' m, p + requests_size P c W g_synth_table_size m))
  requests_to_buf-requests_from_buf clock clock' m f buf p =
      rw (sym (length-requests_bytes clock m f)) (
        round_trip (requests_to_buf-Writes clock m f) (requests_from_buf-Reads clock clock' m f) buf
          p)
