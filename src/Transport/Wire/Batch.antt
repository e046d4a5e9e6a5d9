-- ===== src/Transport/Wire/Batch.antt =====
-- transport/message.cpp: ClientQueryBatch::get_size, copy_to_buf and copy_from_buf.
pub mod RoundTrip
use algorand.Prelude.{ℕ, zero, suc, ◌+◌, ◌*◌, List, [], ◌∷◌, Text, none, some, length}
use algorand.Transport.Messages.{cl_batch, Message, YcsbClientQueryMessage, ClientQueryBatch}
use algorand.Transport.Wire.{
  Writer, ◌⨾◌, skip, copy_buf, copy_string, Reader, ◌>>=◌, give, copy_val, buf_to_string,
  frame_write, frame_read,
}
use algorand.Transport.Wire.Header.{Layout, mget_size, mcopy_to_buf, mcopy_from_buf}
use algorand.Transport.Wire.Query.{ycsb_size, ycsb_to_buf}
use algorand.Transport.Wire.Nested.{nested_query, queries_size, copy_queries, read_queries}
use algorand.System.Node.{Platform, Config}
use algorand.System.Send.{create_message}

module _ (P : Platform) (c : Config) (W : Layout P) (g_synth_table_size : ℕ) where
  open P.D use {Double}
  open P use {Request}
  open W use {u32, u64}

  pub query_batch_size : ClientQueryBatch Double Request → ℕ
  query_batch_size m =
      mget_size P W m.base
      + (u64.size + u32.size + queries_size P c W g_synth_table_size c.g_batch_size m.cqry_set)

  batch_fields : (ℕ → Double) → ClientQueryBatch Double Request → Writer
  batch_fields clock m =
      copy_buf u64 m.return_node
      ⨾ copy_buf u32 m.batch_size
      ⨾ copy_queries P c W g_synth_table_size c.g_batch_size clock 1 m.cqry_set
      ⨾ skip

  batch_fields_from : (ℕ → Double) → Message Double → Reader (ClientQueryBatch Double Request)
  batch_fields_from clock base = do
    return_node ← copy_val u64
    batch_size ← copy_val u32
    cqry_set ← read_queries P c W g_synth_table_size c.g_batch_size clock 1
    give (record {
      base = base;
      return_node = return_node;
      batch_size = batch_size;
      cqry_set = cqry_set;
    })

  -- `clock 0` is the clock for the header of the message itself
  pub batch_to_buf : (ℕ → Double) → ClientQueryBatch Double Request → Writer
  batch_to_buf clock m =
      frame_write (mcopy_to_buf P W (clock 0) m.base) (mget_size P W m.base) (batch_fields clock m)
        (query_batch_size m)

  pub batch_from_buf : (ℕ → Double) → Reader (ClientQueryBatch Double Request)
  batch_from_buf clock =
      frame_read (mcopy_from_buf P W (clock 0) (create_message P c cl_batch)) (mget_size P W)
        (batch_fields_from clock) query_batch_size
