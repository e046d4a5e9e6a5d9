-- ===== src/Transport/Wire/Requests.antt =====
-- transport/message.cpp: BatchRequests::get_size, copy_to_buf and copy_from_buf.
pub mod Rows
pub mod RoundTrip
use algorand.Prelude.{ℕ, zero, suc, ◌+◌, ◌*◌, List, [], ◌∷◌, Text, none, some, length}
use algorand.Transport.Messages.{batch_req, Message, YcsbClientQueryMessage, BatchRequests}
use algorand.Transport.Wire.{
  Writer, ◌⨾◌, skip, copy_buf, copy_string, Reader, ◌>>=◌, give, copy_val, buf_to_string,
  frame_write, frame_read,
}
use algorand.Transport.Wire.Header.{Layout, mget_size, mcopy_to_buf, mcopy_from_buf}
use algorand.Transport.Wire.Query.{ycsb_size, ycsb_to_buf}
use algorand.Transport.Wire.Nested.{nested_query, queries_size, copy_queries, read_queries}
use algorand.System.Node.{Platform, Config}
use algorand.System.Send.{create_message}

module _ (P : Platform) (c : Config) (W : Layout P) (g_synth_table_size : ℕ) where
  open P.D use {Double}
  open P use {Request}
  open W use {u32, u64}

  -- what each round of the loop of copy_to_buf writes
  pub copy_rows :
      ℕ
      → (ℕ → Double)
      → ℕ
      → List ℕ
      → List ℕ
      → List Text
      → List (YcsbClientQueryMessage Double Request)
      → Writer
  copy_rows zero clock i is hs ts qs buf p = some (buf, p)
  copy_rows (suc n) clock i (x ∷ is) (h ∷ hs) (t ∷ ts) (q ∷ qs) buf p =
      (copy_buf u64 x
          ⨾ copy_buf u64 h
          ⨾ copy_string (length t) t
          ⨾ ycsb_to_buf P c W g_synth_table_size (clock i) q
          ⨾ copy_rows n clock (i + 1) is hs ts qs)
        buf p
  copy_rows (suc n) clock i [] hs ts qs buf p = none
  copy_rows (suc n) clock i (x ∷ is) [] ts qs buf p = none
  copy_rows (suc n) clock i (x ∷ is) (h ∷ hs) [] qs buf p = none
  copy_rows (suc n) clock i (x ∷ is) (h ∷ hs) (t ∷ ts) [] buf p = none

  pub read_rows :
      ℕ
      → (ℕ → Double)
      → ℕ
      → Reader (List ℕ × List ℕ × List Text × List (YcsbClientQueryMessage Double Request))
  read_rows zero clock i = give ([], [], [], [])
  read_rows (suc n) clock i = do
    x ← copy_val u64
    h ← copy_val u64
    t ← buf_to_string h
    q ← nested_query P c W g_synth_table_size (clock i)
    (is, hs, ts, qs) ← read_rows n clock (i + 1)
    give (x ∷ is, h ∷ hs, t ∷ ts, q ∷ qs)

  -- `for (i = 0; i < n; i++) size += hash[i].length();`, where an index past the end adds nothing: the loop that
  -- copies fails there
  pub hashes_size : ℕ → List Text → ℕ
  hashes_size zero ts = 0
  hashes_size (suc n) [] = 0
  hashes_size (suc n) (t ∷ ts) = length t + hashes_size n ts

  pub requests_size : BatchRequests Double Request → ℕ
  requests_size m =
      mget_size P W m.base
      + (u64.size
          + u64.size * length m.index
          + u64.size * length m.hash_size
          + hashes_size c.g_batch_size m.hash
          + queries_size P c W g_synth_table_size c.g_batch_size m.request_msg
          + u32.size)

  requests_fields : (ℕ → Double) → BatchRequests Double Request → Writer
  requests_fields clock m =
      copy_buf u64 m.view
      ⨾ copy_rows c.g_batch_size clock 1 m.index m.hash_size m.hash m.request_msg
      ⨾ copy_buf u32 m.batch_size
      ⨾ skip

  requests_fields_from : (ℕ → Double) → Message Double → Reader (BatchRequests Double Request)
  requests_fields_from clock base = do
    view ← copy_val u64
    (index, hash_size, hash, request_msg) ← read_rows c.g_batch_size clock 1
    batch_size ← copy_val u32
    give (record {
      base = base;
      view = view;
      index = index;
      hash_size = hash_size;
      hash = hash;
      request_msg = request_msg;
      batch_size = batch_size;
    })

  -- `clock 0` is the clock for the header of the message itself
  pub requests_to_buf : (ℕ → Double) → BatchRequests Double Request → Writer
  requests_to_buf clock m =
      frame_write (mcopy_to_buf P W (clock 0) m.base) (mget_size P W m.base)
        (requests_fields clock m) (requests_size m)

  pub requests_from_buf : (ℕ → Double) → Reader (BatchRequests Double Request)
  requests_from_buf clock =
      frame_read (mcopy_from_buf P W (clock 0) (create_message P c batch_req)) (mget_size P W)
        (requests_fields_from clock) requests_size
