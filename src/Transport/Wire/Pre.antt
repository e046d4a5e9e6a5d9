-- ===== src/Transport/Wire/Pre.antt =====
-- transport/message.cpp: PBFTPreMessage::get_size, copy_to_buf and copy_from_buf.
pub mod RoundTrip
use algorand.Prelude.{ℕ, zero, suc, ◌+◌, ◌*◌, List, [], ◌∷◌, Text, none, some, length}
use algorand.Transport.Messages.{pbft_pre_msg, Message, YcsbClientQueryMessage, PbftPreMessage}
use algorand.Transport.Wire.{
  Writer, ◌⨾◌, skip, copy_buf, copy_string, Reader, ◌>>=◌, give, copy_val, buf_to_string,
  frame_write, frame_read,
}
use algorand.Transport.Wire.Header.{Layout, mget_size, mcopy_to_buf, mcopy_from_buf}
use algorand.Transport.Wire.Query.{ycsb_size, ycsb_to_buf}
use algorand.Transport.Wire.Nested.{nested_query, queries_size, copy_queries, read_queries}
use algorand.System.Node.{Platform, Config}
use algorand.System.Send.{create_message}

module _ (P : Platform) (c : Config) (W : Layout P) (g_synth_table_size : ℕ) where
  open P.D use {Double}
  open P use {Request}
  open W use {u64}

  pub pre_size : PbftPreMessage Double Request → ℕ
  pre_size m =
      mget_size P W m.base
      + (u64.size
          + u64.size
          + u64.size
          + length m.hash
          + ycsb_size P c W g_synth_table_size m.request_msg)

  pre_fields : (ℕ → Double) → PbftPreMessage Double Request → Writer
  pre_fields clock m =
      copy_buf u64 m.view
      ⨾ copy_buf u64 m.index
      ⨾ copy_buf u64 m.hash_size
      ⨾ copy_string (length m.hash) m.hash
      ⨾ ycsb_to_buf P c W g_synth_table_size (clock 1) m.request_msg
      ⨾ skip

  pre_fields_from : (ℕ → Double) → Message Double → Reader (PbftPreMessage Double Request)
  pre_fields_from clock base = do
    view ← copy_val u64
    index ← copy_val u64
    hash_size ← copy_val u64
    hash ← buf_to_string hash_size
    request_msg ← nested_query P c W g_synth_table_size (clock 1)
    give (record {
      base = base;
      view = view;
      index = index;
      hash = hash;
      hash_size = hash_size;
      request_msg = request_msg;
    })

  -- `clock 0` is the clock for the header of the message itself
  pub pre_to_buf : (ℕ → Double) → PbftPreMessage Double Request → Writer
  pre_to_buf clock m =
      frame_write (mcopy_to_buf P W (clock 0) m.base) (mget_size P W m.base) (pre_fields clock m)
        (pre_size m)

  pub pre_from_buf : (ℕ → Double) → Reader (PbftPreMessage Double Request)
  pre_from_buf clock =
      frame_read (mcopy_from_buf P W (clock 0) (create_message P c pbft_pre_msg)) (mget_size P W)
        (pre_fields_from clock) pre_size
