-- ===== src/Transport/Wire/Response.antt =====
-- transport/message.cpp: ClientResponseMessage::get_size, copy_to_buf and copy_from_buf, for batches of responses. Array
-- indices past the end fail here.
pub mod RoundTrip
use algorand.Prelude.{ℕ, ◌+◌, ◌*◌, length}
use algorand.Transport.Messages.{cl_rsp, Message, ClientResponseMessage}
use algorand.Transport.Wire.{
  Writer, ◌⨾◌, skip, copy_buf, copy_string, Reader, ◌>>=◌, give, copy_val, buf_to_string,
  frame_write, frame_read, copy_list, read_list,
}
use algorand.Transport.Wire.Header.{Layout, mget_size, mcopy_to_buf, mcopy_from_buf}
use algorand.System.Node.{Platform, Config}
use algorand.System.Send.{create_message}

module _ (P : Platform) (c : Config) (W : Layout P) where
  open P.D use {Double}
  open W use {u64}

  pub response_size : ClientResponseMessage Double → ℕ
  response_size m =
      mget_size P W m.base + u64.size + u64.size * length m.index + u64.size * length m.client_ts

  response_fields : ClientResponseMessage Double → Writer
  response_fields m =
      copy_list u64 c.g_batch_size m.index
      ⨾ copy_list u64 c.g_batch_size m.client_ts
      ⨾ copy_buf u64 m.view
      ⨾ skip

  response_fields_from : Message Double → Reader (ClientResponseMessage Double)
  response_fields_from base = do
    index ← read_list u64 c.g_batch_size
    client_ts ← read_list u64 c.g_batch_size
    view ← copy_val u64
    give (record { base = base; index = index; client_ts = client_ts; view = view })

  pub response_to_buf : Double → ClientResponseMessage Double → Writer
  response_to_buf now m =
      frame_write (mcopy_to_buf P W now m.base) (mget_size P W m.base) (response_fields m)
        (response_size m)

  pub response_from_buf : Double → Reader (ClientResponseMessage Double)
  response_from_buf now =
      frame_read (mcopy_from_buf P W now (create_message P c cl_rsp)) (mget_size P W)
        response_fields_from response_size
