-- ===== src/Transport/Wire/Checkpoint.antt =====
-- transport/message.cpp: CheckpointMessage::get_size, copy_to_buf and copy_from_buf.
pub mod RoundTrip
use algorand.Prelude.{ℕ, ◌+◌, ◌*◌, length}
use algorand.Transport.Messages.{pbft_chkpt_msg, Message, CheckpointMessage}
use algorand.Transport.Wire.{
  Writer, ◌⨾◌, skip, copy_buf, copy_string, Reader, ◌>>=◌, give, copy_val, buf_to_string,
  frame_write, frame_read, copy_list, read_list,
}
use algorand.Transport.Wire.Header.{Layout, mget_size, mcopy_to_buf, mcopy_from_buf}
use algorand.System.Node.{Platform, Config}
use algorand.System.Send.{create_message}

module _ (P : Platform) (c : Config) (W : Layout P) where
  open P.D use {Double}
  open W use {u64}

  pub checkpoint_size : CheckpointMessage Double → ℕ
  checkpoint_size m = mget_size P W m.base + u64.size + u64.size + u64.size

  checkpoint_fields : CheckpointMessage Double → Writer
  checkpoint_fields m =
      copy_buf u64 m.index ⨾ copy_buf u64 m.return_node ⨾ copy_buf u64 m.beg_index ⨾ skip

  checkpoint_fields_from : Message Double → Reader (CheckpointMessage Double)
  checkpoint_fields_from base = do
    index ← copy_val u64
    return_node ← copy_val u64
    beg_index ← copy_val u64
    give (record { base = base; index = index; return_node = return_node; beg_index = beg_index })

  pub checkpoint_to_buf : Double → CheckpointMessage Double → Writer
  checkpoint_to_buf now m =
      frame_write (mcopy_to_buf P W now m.base) (mget_size P W m.base) (checkpoint_fields m)
        (checkpoint_size m)

  pub checkpoint_from_buf : Double → Reader (CheckpointMessage Double)
  checkpoint_from_buf now =
      frame_read (mcopy_from_buf P W now (create_message P c pbft_chkpt_msg)) (mget_size P W)
        checkpoint_fields_from checkpoint_size
