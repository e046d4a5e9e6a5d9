-- ===== src/Transport/Wire/Keys/RoundTrip.antt =====
-- KeyExchange through a buffer and back (transport/message.cpp).
use algorand.Prelude.{ℕ, ◌+◌, ◌^◌, ◌≡◌, ◌<◌, List, [], ◌++◌, length, length-append, arith}
use algorand.Prelude.Int.{ℤ}
use algorand.Transport.Messages.{keyex, Message, KeyExchange}
use algorand.Transport.Wire.Laws.{
  Writes, Reads, ⨾-Writes, skip-Writes, copy_buf-Writes, copy_string-Writes, >>=-Reads, give-Reads,
  copy_val-Reads, buf_to_string-Reads,
}
use algorand.Transport.Wire.Header.{Layout, mget_size}
use algorand.Transport.Wire.Header.RoundTrip.{
  LayoutLaws, FitsMessage, header_bytes, header_bytes-rtype,
}
use algorand.Transport.Wire.Header.Framed.{
  fresh_copy, place_to_buf-Writes, place_from_buf-Reads, length-framed, framed-rtype,
}
use algorand.System.Node.{Platform, Config}
use algorand.Transport.Wire.Keys.{
  key_exchange_size, key_exchange_fields, key_exchange_fields_from, key_exchange_to_buf,
  key_exchange_from_buf,
}

pub record FitsKeyExchange {R : Type 0} (FitsInt : ℤ → Type 0) (m : KeyExchange R) : Type 0 where
  pub base : FitsMessage FitsInt m.base
  pub pkey_small : m.pkey_sz < 2 ^ 64
  pub pkey_sz : m.pkey_sz ≡ length m.pkey
  pub return_node : m.return_node < 2 ^ 64

module _ (P : Platform) (c : Config) (W : Layout P) (FitsInt : ℤ → Type 0)
    (L : LayoutLaws P W FitsInt) where
  open P.D use {Double}
  open W use {u64}

  field_bytes : KeyExchange Double → List ℕ
  field_bytes m = (u64.to_bytes m.pkey_sz ++ (m.pkey ++ (u64.to_bytes m.return_node ++ [])))

  key_exchange_fields-Writes :
      (m : KeyExchange Double)
      → FitsKeyExchange FitsInt m
      → Writes (key_exchange_fields P c W m) (field_bytes m)
  unfolding key_exchange_fields field_bytes
  key_exchange_fields-Writes m f = ⨾-Writes (copy_buf-Writes L.u64 m.pkey_sz) (
      ⨾-Writes (copy_string-Writes (m.pkey_sz) m.pkey f.pkey_sz)
        (⨾-Writes (copy_buf-Writes L.u64 m.return_node) (skip-Writes)))

  key_exchange_fields_from-Reads :
      (base : Message Double) (m : KeyExchange Double)
      → FitsKeyExchange FitsInt m
      → Reads (key_exchange_fields_from P c W base) (field_bytes m) (record m { base = base })
  unfolding key_exchange_fields_from field_bytes
  key_exchange_fields_from-Reads base m f =
      >>=-Reads _ (copy_val-Reads L.u64 m.pkey_sz f.pkey_small) (
        >>=-Reads _ (buf_to_string-Reads m.pkey_sz m.pkey f.pkey_sz)
          (>>=-Reads _ (copy_val-Reads L.u64 m.return_node f.return_node) (give-Reads _)))

  length-field_bytes :
      (m : KeyExchange Double)
      → mget_size P W m.base + length (field_bytes m) ≡ key_exchange_size P c W m
  unfolding field_bytes key_exchange_size
  length-field_bytes m = simp (length-append, L.u64.length-to_bytes) (omega arith)

  -- the message of the copy that was written at `now` and is read at `now'`
  abbrev pub key_exchange_copy : Double → Double → KeyExchange Double → KeyExchange Double
  key_exchange_copy now now' m = record m {
    base = fresh_copy P c W FitsInt L now now' keyex m.base;
  }

  pub key_exchange_bytes : Double → KeyExchange Double → List ℕ
  key_exchange_bytes now m = header_bytes P W FitsInt L now m.base ++ field_bytes m

  pub key_exchange_bytes-rtype :
      (now : Double) (m : KeyExchange Double)
      → (rest : List ℕ) × (key_exchange_bytes now m ≡ W.rtype.to_bytes m.rtype ++ rest)
  unfolding key_exchange_bytes
  key_exchange_bytes-rtype now m =
      framed-rtype P c W FitsInt L m.rtype (field_bytes m)
        (header_bytes-rtype P W FitsInt L now m.base)

  pub length-key_exchange_bytes :
      (now : Double) (m : KeyExchange Double)
      → FitsKeyExchange FitsInt m
      → length (key_exchange_bytes now m) ≡ key_exchange_size P c W m
  unfolding key_exchange_bytes
  length-key_exchange_bytes now m f =
      length-framed P c W FitsInt L (field_bytes m) now m.base f.base (length-field_bytes m)

  pub key_exchange_to_buf-Writes :
      (now : Double) (m : KeyExchange Double)
      → FitsKeyExchange FitsInt m
      → Writes (key_exchange_to_buf P c W now m) (key_exchange_bytes now m)
  unfolding key_exchange_to_buf key_exchange_bytes
  key_exchange_to_buf-Writes now m f =
      place_to_buf-Writes P c W FitsInt L now m.base f.base (key_exchange_fields-Writes m f)
        (length-field_bytes m)

  pub key_exchange_from_buf-Reads :
      (now now' : Double) (m : KeyExchange Double)
      → FitsKeyExchange FitsInt m
      → Reads
          (key_exchange_from_buf P c W now')
          (key_exchange_bytes now m)
          (key_exchange_copy now now' m)
  unfolding key_exchange_from_buf key_exchange_bytes field_bytes
  key_exchange_from_buf-Reads now now' m f =
      place_from_buf-Reads P c W FitsInt L (key_exchange_fields_from P c W)
        (key_exchange_size P c W) now now' keyex m.base f.base
        (key_exchange_fields_from-Reads _ m f) (length-field_bytes (key_exchange_copy now now' m))
