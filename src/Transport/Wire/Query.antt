-- ===== src/Transport/Wire/Query.antt =====
-- transport/message.cpp: get_size, copy_to_buf and copy_from_buf of ClientQueryMessage and of
-- YCSBClientQueryMessage, which calls those of its base class first. `g_synth_table_size` is an argument, since its value
-- is in a header that is not in the repository.
pub mod Client
pub mod RoundTrip
use algorand.Prelude.{ℕ, ◌+◌, ◌*◌, List, [], ◌∷◌, Bool, some, none, zero, suc, length, ltb}
use algorand.Prelude.Fallible.{assert}
use algorand.Transport.Messages.{cl_qry, Message, YcsbClientQueryMessage}
use algorand.Transport.Wire.{
  Writer, ◌⨾◌, skip, check, copy_buf, Reader, ◌>>=◌, ◌>>◌, give, lift, copy_val, frame_write,
  frame_read, place_write, place_read, copy_list, read_list,
}
use algorand.Transport.Wire.Header.{Layout, mget_size, mcopy_to_buf, mcopy_from_buf}
use algorand.System.Node.{Platform, Config}
use algorand.System.Send.{create_message}

-- the part that ClientQueryMessage declares
pub record ClientQueryMessage (R : Type 0) : Type 0 where
  pub base : Message R
  pub client_startts : ℕ
  pub partitions : List ℕ

abbrev pub client_part :
    {R Request : Type 0} → YcsbClientQueryMessage R Request → ClientQueryMessage R
client_part m = record {
  base = m.base;
  client_startts = m.client_startts;
  partitions = m.partitions;
}

module _ (P : Platform) (c : Config) (W : Layout P) where
  open P.D use {Double}
  open P use {Request}
  open W use {u64, request}

  pub client_size : ClientQueryMessage Double → ℕ
  client_size m = mget_size P W m.base + (u64.size + u64.size + u64.size * length m.partitions)

  client_fields : ClientQueryMessage Double → Writer
  client_fields m =
      copy_buf u64 m.client_startts
      ⨾ copy_buf u64 (length m.partitions)
      ⨾ copy_list u64 (length m.partitions) m.partitions
      ⨾ skip

  client_fields_from : Message Double → Reader (ClientQueryMessage Double)
  client_fields_from base = do
    client_startts ← copy_val u64
    size ← copy_val u64
    partitions ← read_list u64 size
    give (record { base = base; client_startts = client_startts; partitions = partitions })

  pub client_to_buf : Double → ClientQueryMessage Double → Writer
  client_to_buf now m =
      place_write (mcopy_to_buf P W now m.base) (mget_size P W m.base) (client_fields m)
        (client_size m)

  pub client_from_buf : Double → Reader (ClientQueryMessage Double)
  client_from_buf now =
      place_read (mcopy_from_buf P W now (create_message P c cl_qry)) (mget_size P W)
        client_fields_from client_size

  -- the rest is about the keys below `g_synth_table_size`
  module _ (g_synth_table_size : ℕ) where
    pub ycsb_size : YcsbClientQueryMessage Double Request → ℕ
    ycsb_size m =
        client_size (client_part m) + (u64.size + request.size * length m.requests + u64.size)

    copy_requests : List Request → Writer
    copy_requests [] buf p = some (buf, p)
    copy_requests (r ∷ rs) buf p =
        (check (ltb (P.key r) g_synth_table_size) ⨾ copy_buf request r ⨾ copy_requests rs) buf p

    read_requests : ℕ → Reader (List Request)
    read_requests zero = give []
    read_requests (suc n) = do
      r ← copy_val request
      lift (assert (ltb (P.key r) g_synth_table_size))
      rs ← read_requests n
      give (r ∷ rs)

    ycsb_fields : YcsbClientQueryMessage Double Request → Writer
    ycsb_fields m =
        copy_buf u64 (length m.requests)
        ⨾ copy_requests m.requests
        ⨾ copy_buf u64 m.return_node
        ⨾ skip

    ycsb_fields_from : ClientQueryMessage Double → Reader (YcsbClientQueryMessage Double Request)
    ycsb_fields_from m = do
      size ← copy_val u64
      requests ← read_requests size
      return_node ← copy_val u64
      give (record {
        base = m.base;
        client_startts = m.client_startts;
        partitions = m.partitions;
        requests = requests;
        return_node = return_node;
      })

    pub ycsb_to_buf : Double → YcsbClientQueryMessage Double Request → Writer
    ycsb_to_buf now m =
        frame_write (client_to_buf now (client_part m)) (client_size (client_part m))
          (ycsb_fields m) (ycsb_size m)

    pub ycsb_from_buf : Double → Reader (YcsbClientQueryMessage Double Request)
    ycsb_from_buf now = frame_read (client_from_buf now) client_size ycsb_fields_from ycsb_size
