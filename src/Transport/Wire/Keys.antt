-- ===== src/Transport/Wire/Keys.antt =====
-- transport/message.cpp: KeyExchange::get_size, copy_to_buf and copy_from_buf, which have no assert.
pub mod RoundTrip
use algorand.Prelude.{ℕ, ◌+◌, ◌*◌, length}
use algorand.Transport.Messages.{keyex, Message, KeyExchange}
use algorand.Transport.Wire.{
  Writer, ◌⨾◌, skip, copy_buf, copy_string, Reader, ◌>>=◌, give, copy_val, buf_to_string,
  place_write, place_read, copy_list, read_list,
}
use algorand.Transport.Wire.Header.{Layout, mget_size, mcopy_to_buf, mcopy_from_buf}
use algorand.System.Node.{Platform, Config}
use algorand.System.Send.{create_message}

module _ (P : Platform) (c : Config) (W : Layout P) where
  open P.D use {Double}
  open W use {u64}

  pub key_exchange_size : KeyExchange Double → ℕ
  key_exchange_size m = mget_size P W m.base + u64.size + length m.pkey + u64.size

  key_exchange_fields : KeyExchange Double → Writer
  key_exchange_fields m =
      copy_buf u64 m.pkey_sz ⨾ copy_string m.pkey_sz m.pkey ⨾ copy_buf u64 m.return_node ⨾ skip

  key_exchange_fields_from : Message Double → Reader (KeyExchange Double)
  key_exchange_fields_from base = do
    pkey_sz ← copy_val u64
    pkey ← buf_to_string pkey_sz
    return_node ← copy_val u64
    give (record { base = base; pkey_sz = pkey_sz; pkey = pkey; return_node = return_node })

  pub key_exchange_to_buf : Double → KeyExchange Double → Writer
  key_exchange_to_buf now m =
      place_write (mcopy_to_buf P W now m.base) (mget_size P W m.base) (key_exchange_fields m)
        (key_exchange_size m)

  pub key_exchange_from_buf : Double → Reader (KeyExchange Double)
  key_exchange_from_buf now =
      place_read (mcopy_from_buf P W now (create_message P c keyex)) (mget_size P W)
        key_exchange_fields_from key_exchange_size
