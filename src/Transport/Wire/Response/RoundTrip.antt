-- ===== src/Transport/Wire/Response/RoundTrip.antt =====
-- ClientResponseMessage through a buffer and back (transport/message.cpp).
use algorand.Prelude.{ℕ, ◌+◌, ◌^◌, ◌≡◌, ◌<◌, List, [], ◌++◌, length, length-append, arith}
use algorand.Prelude.Int.{ℤ}
use algorand.Transport.Messages.{cl_rsp, Message, ClientResponseMessage}
use algorand.Transport.Wire.Laws.{
  Writes, Reads, ⨾-Writes, skip-Writes, copy_buf-Writes, >>=-Reads, give-Reads, copy_val-Reads,
}
use algorand.Transport.Wire.Laws.Lists.{
  list_bytes, AllFit, length-list_bytes, copy_list-Writes, read_list-Reads,
}
use algorand.Transport.Wire.Header.{Layout, mget_size}
use algorand.Transport.Wire.Header.RoundTrip.{
  LayoutLaws, FitsMessage, header_bytes, header_bytes-rtype,
}
use algorand.Transport.Wire.Header.Framed.{
  fresh_copy, frame_to_buf-Writes, frame_from_buf-Reads, length-framed, framed-rtype,
}
use algorand.System.Node.{Platform, Config}
use algorand.Transport.Wire.Response.{
  response_size, response_fields, response_fields_from, response_to_buf, response_from_buf,
}

pub record FitsResponse {R : Type 0} (FitsInt : ℤ → Type 0) (c : Config)
    (m : ClientResponseMessage R) : Type 0 where
  pub base : FitsMessage FitsInt m.base
  pub index : AllFit (λ n. n < 2 ^ 64) m.index
  pub length_index : length m.index ≡ c.g_batch_size
  pub client_ts : AllFit (λ n. n < 2 ^ 64) m.client_ts
  pub length_client_ts : length m.client_ts ≡ c.g_batch_size
  pub view : m.view < 2 ^ 64

module _ (P : Platform) (c : Config) (W : Layout P) (FitsInt : ℤ → Type 0)
    (L : LayoutLaws P W FitsInt) where
  open P.D use {Double}
  open W use {u64}

  field_bytes : ClientResponseMessage Double → List ℕ
  field_bytes m =
      (list_bytes u64 m.index ++ (list_bytes u64 m.client_ts ++ (u64.to_bytes m.view ++ [])))

  response_fields-Writes :
      (m : ClientResponseMessage Double)
      → FitsResponse FitsInt c m
      → Writes (response_fields P c W m) (field_bytes m)
  unfolding response_fields field_bytes
  response_fields-Writes m f =
      ⨾-Writes (copy_list-Writes L.u64 c.g_batch_size m.index f.length_index) (
        ⨾-Writes (copy_list-Writes L.u64 c.g_batch_size m.client_ts f.length_client_ts)
          (⨾-Writes (copy_buf-Writes L.u64 m.view) (skip-Writes)))

  response_fields_from-Reads :
      (base : Message Double) (m : ClientResponseMessage Double)
      → FitsResponse FitsInt c m
      → Reads (response_fields_from P c W base) (field_bytes m) (record m { base = base })
  unfolding response_fields_from field_bytes
  response_fields_from-Reads base m f =
      >>=-Reads _ (read_list-Reads L.u64 c.g_batch_size m.index f.length_index f.index) (
        >>=-Reads _
          (read_list-Reads L.u64 c.g_batch_size m.client_ts f.length_client_ts f.client_ts)
          (>>=-Reads _ (copy_val-Reads L.u64 m.view f.view) (give-Reads _)))

  length-field_bytes :
      (m : ClientResponseMessage Double)
      → mget_size P W m.base + length (field_bytes m) ≡ response_size P c W m
  unfolding field_bytes response_size
  length-field_bytes m =
      simp
        (
          length-append,
          L.u64.length-to_bytes,
          length-list_bytes L.u64 m.index,
          length-list_bytes L.u64 m.client_ts,
        )
        (omega arith)

  -- the message of the copy that was written at `now` and is read at `now'`
  abbrev pub response_copy :
      Double → Double → ClientResponseMessage Double → ClientResponseMessage Double
  response_copy now now' m = record m { base = fresh_copy P c W FitsInt L now now' cl_rsp m.base }

  pub response_bytes : Double → ClientResponseMessage Double → List ℕ
  response_bytes now m = header_bytes P W FitsInt L now m.base ++ field_bytes m

  pub response_bytes-rtype :
      (now : Double) (m : ClientResponseMessage Double)
      → (rest : List ℕ) × (response_bytes now m ≡ W.rtype.to_bytes m.rtype ++ rest)
  unfolding response_bytes
  response_bytes-rtype now m =
      framed-rtype P c W FitsInt L m.rtype (field_bytes m)
        (header_bytes-rtype P W FitsInt L now m.base)

  pub length-response_bytes :
      (now : Double) (m : ClientResponseMessage Double)
      → FitsResponse FitsInt c m
      → length (response_bytes now m) ≡ response_size P c W m
  unfolding response_bytes
  length-response_bytes now m f =
      length-framed P c W FitsInt L (field_bytes m) now m.base f.base (length-field_bytes m)

  pub response_to_buf-Writes :
      (now : Double) (m : ClientResponseMessage Double)
      → FitsResponse FitsInt c m
      → Writes (response_to_buf P c W now m) (response_bytes now m)
  unfolding response_to_buf response_bytes
  response_to_buf-Writes now m f =
      frame_to_buf-Writes P c W FitsInt L now m.base f.base (response_fields-Writes m f)
        (length-field_bytes m)

  pub response_from_buf-Reads :
      (now now' : Double) (m : ClientResponseMessage Double)
      → FitsResponse FitsInt c m
      → Reads (response_from_buf P c W now') (response_bytes now m) (response_copy now now' m)
  unfolding response_from_buf response_bytes field_bytes
  response_from_buf-Reads now now' m f =
      frame_from_buf-Reads P c W FitsInt L (response_fields_from P c W) (response_size P c W) now
        now' cl_rsp m.base f.base (response_fields_from-Reads _ m f)
        (length-field_bytes (response_copy now now' m))
