-- ===== src/Transport/Wire/Indexed.antt =====
-- transport/message.cpp: get_size, copy_to_buf and copy_from_buf of PBFTPrepMessage, PBFTCommitMessage and
-- ExecuteMessage, which have the same code and the same fields, but for the type of batch_size: it is uint32_t in
-- PBFTPrepMessage and uint64_t in the other two, and a parameter here. A copy that is read is one that
-- create_message has made.
pub mod RoundTrip
use algorand.Prelude.{ℕ, ◌+◌, length}
use algorand.Transport.Messages.{
  RemReqType, pbft_prep_msg, pbft_commit_msg, execute_msg, Message, IndexedMessage,
}
use algorand.Transport.Wire.{
  Wire, Writer, ◌⨾◌, skip, copy_buf, copy_string, Reader, ◌>>=◌, give, copy_val, buf_to_string,
  frame_write, frame_read,
}
use algorand.Transport.Wire.Header.{Layout, mget_size, mcopy_to_buf, mcopy_from_buf}
use algorand.System.Node.{Platform, Config}
use algorand.System.Send.{create_message}

module _ (P : Platform) (c : Config) (W : Layout P) (batch : Wire ℕ) where
  open P.D use {Double}
  open W use {u64}

  pub indexed_size : IndexedMessage Double → ℕ
  indexed_size m =
      mget_size P W m.base
      + u64.size
      + u64.size
      + length m.hash
      + u64.size
      + u64.size
      + u64.size
      + batch.size

  indexed_fields : IndexedMessage Double → Writer
  indexed_fields m =
      copy_buf u64 m.view
      ⨾ copy_buf u64 m.index
      ⨾ copy_buf u64 m.hash_size
      ⨾ copy_string (length m.hash) m.hash
      ⨾ copy_buf u64 m.return_node
      ⨾ copy_buf u64 m.end_index
      ⨾ copy_buf batch m.batch_size
      ⨾ skip

  indexed_fields_from : Message Double → Reader (IndexedMessage Double)
  indexed_fields_from base = do
    view ← copy_val u64
    index ← copy_val u64
    hash_size ← copy_val u64
    hash ← buf_to_string hash_size
    return_node ← copy_val u64
    end_index ← copy_val u64
    batch_size ← copy_val batch
    give (record {
      base = base;
      view = view;
      index = index;
      hash = hash;
      hash_size = hash_size;
      return_node = return_node;
      end_index = end_index;
      batch_size = batch_size;
    })

  pub indexed_to_buf : Double → IndexedMessage Double → Writer
  indexed_to_buf now m =
      frame_write (mcopy_to_buf P W now m.base) (mget_size P W m.base) (indexed_fields m)
        (indexed_size m)

  -- `now` is the clock when the message is read
  pub indexed_from_buf : RemReqType → Double → Reader (IndexedMessage Double)
  indexed_from_buf rtype now =
      frame_read (mcopy_from_buf P W now (create_message P c rtype)) (mget_size P W)
        indexed_fields_from indexed_size

module _ (P : Platform) (c : Config) (W : Layout P) where
  open P.D use {Double}
  open W use {u32, u64}

  abbrev pub prep_size : IndexedMessage Double → ℕ
  prep_size = indexed_size P c W u32

  abbrev pub prep_to_buf : Double → IndexedMessage Double → Writer
  prep_to_buf = indexed_to_buf P c W u32

  abbrev pub prep_from_buf : Double → Reader (IndexedMessage Double)
  prep_from_buf = indexed_from_buf P c W u32 pbft_prep_msg

  abbrev pub commit_size : IndexedMessage Double → ℕ
  commit_size = indexed_size P c W u64

  abbrev pub commit_to_buf : Double → IndexedMessage Double → Writer
  commit_to_buf = indexed_to_buf P c W u64

  abbrev pub commit_from_buf : Double → Reader (IndexedMessage Double)
  commit_from_buf = indexed_from_buf P c W u64 pbft_commit_msg

  abbrev pub execute_size : IndexedMessage Double → ℕ
  execute_size = indexed_size P c W u64

  abbrev pub execute_to_buf : Double → IndexedMessage Double → Writer
  execute_to_buf = indexed_to_buf P c W u64

  abbrev pub execute_from_buf : Double → Reader (IndexedMessage Double)
  execute_from_buf = indexed_from_buf P c W u64 execute_msg
