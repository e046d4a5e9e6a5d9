-- ===== src/Transport/Wire/Query/Client.antt =====
-- The part of ClientQueryMessage through a buffer and back (transport/message.cpp).
use algorand.Prelude.{ℕ, ◌+◌, ◌^◌, ◌≡◌, ◌<◌, refl, List, [], ◌++◌, length, length-append, arith}
use algorand.Prelude.Int.{ℤ}
use algorand.Transport.Messages.{cl_qry, Message}
use algorand.Transport.Wire.Laws.{
  Writes, Reads, ⨾-Writes, skip-Writes, copy_buf-Writes, >>=-Reads, give-Reads, copy_val-Reads,
}
use algorand.Transport.Wire.Laws.Lists.{
  list_bytes, AllFit, length-list_bytes, copy_list-Writes, read_list-Reads,
}
use algorand.Transport.Wire.Header.{Layout, mget_size}
use algorand.Transport.Wire.Header.RoundTrip.{
  LayoutLaws, FitsMessage, header_bytes, mget_size-received, header_bytes-rtype,
}
use algorand.Transport.Wire.Header.Framed.{
  fresh_copy, place_to_buf-Writes, place_from_buf-Reads, length-framed, framed-rtype,
}
use algorand.Transport.Wire.Query.{
  ClientQueryMessage, client_size, client_fields, client_fields_from, client_to_buf,
  client_from_buf,
}
use algorand.System.Node.{Platform, Config}
use algorand.System.Send.{create_message}

pub record FitsClient {R : Type 0} (FitsInt : ℤ → Type 0) (m : ClientQueryMessage R) : Type 0 where
  pub base : FitsMessage FitsInt m.base
  pub client_startts : m.client_startts < 2 ^ 64
  pub few : length m.partitions < 2 ^ 64
  pub partitions : AllFit (λ n. n < 2 ^ 64) m.partitions

module _ (P : Platform) (c : Config) (W : Layout P) (FitsInt : ℤ → Type 0)
    (L : LayoutLaws P W FitsInt) where
  open P.D use {Double}
  open P use {Request}
  open W use {u64, request}

  client_field_bytes : ClientQueryMessage Double → List ℕ
  client_field_bytes m =
      u64.to_bytes m.client_startts
      ++ (u64.to_bytes (length m.partitions) ++ (list_bytes u64 m.partitions ++ []))

  client_fields-Writes :
      (m : ClientQueryMessage Double) → Writes (client_fields P c W m) (client_field_bytes m)
  unfolding client_fields client_field_bytes
  client_fields-Writes m = ⨾-Writes (copy_buf-Writes L.u64 m.client_startts) (
      ⨾-Writes (copy_buf-Writes L.u64 (length m.partitions))
        (⨾-Writes (copy_list-Writes L.u64 (length m.partitions) m.partitions refl) skip-Writes))

  client_fields_from-Reads :
      (base : Message Double) (m : ClientQueryMessage Double)
      → FitsClient FitsInt m
      → Reads (client_fields_from P c W base) (client_field_bytes m) (record m { base = base })
  unfolding client_fields_from client_field_bytes
  client_fields_from-Reads base m f =
      >>=-Reads _ (copy_val-Reads L.u64 m.client_startts f.client_startts) (
        >>=-Reads _ (copy_val-Reads L.u64 (length m.partitions) f.few) (
          >>=-Reads _ (read_list-Reads L.u64 (length m.partitions) m.partitions refl f.partitions)
            (give-Reads _)))

  length-client_field_bytes :
      (m : ClientQueryMessage Double)
      → mget_size P W m.base + length (client_field_bytes m) ≡ client_size P c W m
  unfolding client_field_bytes client_size
  length-client_field_bytes m =
      simp (length-append, L.u64.length-to_bytes, length-list_bytes L.u64 m.partitions)
        (omega arith)

  -- the part of ClientQueryMessage of the copy that was written at `now` and is read at `now'`
  abbrev pub client_copy : Double → Double → ClientQueryMessage Double → ClientQueryMessage Double
  client_copy now now' m = record m { base = fresh_copy P c W FitsInt L now now' cl_qry m.base }

  pub client_bytes : Double → ClientQueryMessage Double → List ℕ
  client_bytes now m = header_bytes P W FitsInt L now m.base ++ client_field_bytes m

  pub length-client_bytes :
      (now : Double) (m : ClientQueryMessage Double)
      → FitsClient FitsInt m
      → length (client_bytes now m) ≡ client_size P c W m
  unfolding client_bytes
  length-client_bytes now m f =
      length-framed P c W FitsInt L (client_field_bytes m) now m.base f.base
        (length-client_field_bytes m)

  pub client_to_buf-Writes :
      (now : Double) (m : ClientQueryMessage Double)
      → FitsClient FitsInt m
      → Writes (client_to_buf P c W now m) (client_bytes now m)
  unfolding client_to_buf client_bytes
  client_to_buf-Writes now m f =
      place_to_buf-Writes P c W FitsInt L now m.base f.base (client_fields-Writes m)
        (length-client_field_bytes m)

  pub client_from_buf-Reads :
      (now now' : Double) (m : ClientQueryMessage Double)
      → FitsClient FitsInt m
      → Reads (client_from_buf P c W now') (client_bytes now m) (client_copy now now' m)
  unfolding client_from_buf client_bytes client_field_bytes
  client_from_buf-Reads now now' m f =
      place_from_buf-Reads P c W FitsInt L (client_fields_from P c W) (client_size P c W) now now'
        cl_qry m.base f.base (client_fields_from-Reads _ m f)
        (length-client_field_bytes (client_copy now now' m))

  pub client_size-copy :
      (now now' : Double) (m : ClientQueryMessage Double)
      → client_size P c W (client_copy now now' m) ≡ client_size P c W m
  unfolding client_size
  client_size-copy now now' m =
      rw (mget_size-received P W FitsInt L now now' (create_message P c cl_qry) m.base)

  pub client_bytes-rtype :
      (now : Double) (m : ClientQueryMessage Double)
      → (rest : List ℕ) × (client_bytes now m ≡ W.rtype.to_bytes m.base.rtype ++ rest)
  unfolding client_bytes
  client_bytes-rtype now m =
      framed-rtype P c W FitsInt L m.base.rtype (client_field_bytes m)
        (header_bytes-rtype P W FitsInt L now m.base)
