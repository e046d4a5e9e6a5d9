-- ===== src/Transport/Wire/Dispatch.antt =====
-- transport/message.cpp: the virtual get_size, copy_to_buf and copy_from_buf, create_message(char *) and create_messages,
-- which takes a buffer of the transport apart. Only the classes that the nodes process or send are here. `clock i` is what the
-- call i of get_sys_clock returns.
pub mod Laws
pub mod RoundTrip
use algorand.Prelude.{
  ℕ, zero, suc, ◌+◌, ◌≡◌, Bool, ◌&&◌, ◌||◌, not, List, [], ◌∷◌, none, some, ◌==◌, ltb, leb,
}
use algorand.Prelude.Fallible.{assert}
use algorand.Transport.Messages.{
  RemReqType, ready, keyex, cl_qry, cl_rsp, cl_batch, execute_msg, pbft_pre_msg, batch_req,
  pbft_prep_msg, pbft_commit_msg, pbft_chkpt_msg, pbft_view_change, pbft_new_view, Message,
  BatchRequests, CheckpointMessage, ClientQueryBatch, ClientResponseMessage, IndexedMessage,
  KeyExchange, PbftPreMessage, YcsbClientQueryMessage,
}
use algorand.Transport.Wire.{
  Writer, Reader, ◌>>=◌, ◌>>◌, give, lift, copy_val, skip, place_write, place_read,
}
use algorand.Transport.Wire.Header.{Layout, mget_size, mcopy_to_buf, mcopy_from_buf}
use algorand.Transport.Wire.Keys.{key_exchange_size, key_exchange_to_buf, key_exchange_from_buf}
use algorand.Transport.Wire.Query.{ycsb_size, ycsb_to_buf, ycsb_from_buf}
use algorand.Transport.Wire.Response.{response_size, response_to_buf, response_from_buf}
use algorand.Transport.Wire.Batch.{query_batch_size, batch_to_buf, batch_from_buf}
use algorand.Transport.Wire.Indexed.{
  execute_size, execute_to_buf, execute_from_buf, prep_size, prep_to_buf, prep_from_buf,
  commit_size, commit_to_buf, commit_from_buf,
}
use algorand.Transport.Wire.Pre.{pre_size, pre_to_buf, pre_from_buf}
use algorand.Transport.Wire.Requests.{requests_size, requests_to_buf, requests_from_buf}
use algorand.Transport.Wire.Checkpoint.{checkpoint_size, checkpoint_to_buf, checkpoint_from_buf}
use algorand.Transport.Wire.Nested.{by_type}
use algorand.System.Node.{Platform, Config}
use algorand.System.Send.{create_message}

-- a pointer to a message of one of the classes
pub data AnyMessage (Double Request : Type 0) : Type 0 where
  key_exchange : KeyExchange Double → AnyMessage Double Request
  client_query : YcsbClientQueryMessage Double Request → AnyMessage Double Request
  client_response : ClientResponseMessage Double → AnyMessage Double Request
  client_batch : ClientQueryBatch Double Request → AnyMessage Double Request
  execution : IndexedMessage Double → AnyMessage Double Request
  pre_prepare : PbftPreMessage Double Request → AnyMessage Double Request
  batch_requests : BatchRequests Double Request → AnyMessage Double Request
  preparation : IndexedMessage Double → AnyMessage Double Request
  commitment : IndexedMessage Double → AnyMessage Double Request
  checkpoint : CheckpointMessage Double → AnyMessage Double Request
  ready_server : Message Double → AnyMessage Double Request

module _ (P : Platform) (c : Config) (W : Layout P) (g_synth_table_size : ℕ) where
  open P.D use {Double}
  open P use {Request}

  pub any_size : AnyMessage Double Request → ℕ
  any_size (key_exchange m) = key_exchange_size P c W m
  any_size (client_query m) = ycsb_size P c W g_synth_table_size m
  any_size (client_response m) = response_size P c W m
  any_size (client_batch m) = query_batch_size P c W g_synth_table_size m
  any_size (execution m) = execute_size P c W m
  any_size (pre_prepare m) = pre_size P c W g_synth_table_size m
  any_size (batch_requests m) = requests_size P c W g_synth_table_size m
  any_size (preparation m) = prep_size P c W m
  any_size (commitment m) = commit_size P c W m
  any_size (checkpoint m) = checkpoint_size P c W m
  any_size (ready_server m) = mget_size P W m

  pub any_to_buf : (ℕ → Double) → AnyMessage Double Request → Writer
  any_to_buf clock (key_exchange m) = key_exchange_to_buf P c W (clock 0) m
  any_to_buf clock (client_query m) = ycsb_to_buf P c W g_synth_table_size (clock 0) m
  any_to_buf clock (client_response m) = response_to_buf P c W (clock 0) m
  any_to_buf clock (client_batch m) = batch_to_buf P c W g_synth_table_size clock m
  any_to_buf clock (execution m) = execute_to_buf P c W (clock 0) m
  any_to_buf clock (pre_prepare m) = pre_to_buf P c W g_synth_table_size clock m
  any_to_buf clock (batch_requests m) = requests_to_buf P c W g_synth_table_size clock m
  any_to_buf clock (preparation m) = prep_to_buf P c W (clock 0) m
  any_to_buf clock (commitment m) = commit_to_buf P c W (clock 0) m
  any_to_buf clock (checkpoint m) = checkpoint_to_buf P c W (clock 0) m
  any_to_buf clock (ready_server m) =
      place_write (mcopy_to_buf P W (clock 0) m) (mget_size P W m) skip (mget_size P W m)

  -- a message of a class, as a pointer to the base class; `ptr` moves on by the size
  pub as_any :
      {A : Type 0} → (A → AnyMessage Double Request) → Reader A → Reader (AnyMessage Double Request)
  as_any f r buf p = elim (r buf p) [ none ↦ none | some (a, p') ↦ some (f a, p') ]

  -- create_message(rtype) and copy_from_buf of the class that it makes; without VIEW_CHANGES its assert fails for the
  -- messages of view changes
  pub of_class : (ℕ → Double) → RemReqType → Reader (AnyMessage Double Request)
  of_class clock keyex = as_any key_exchange (key_exchange_from_buf P c W (clock 0))
  of_class clock cl_qry = as_any client_query (ycsb_from_buf P c W g_synth_table_size (clock 0))
  of_class clock cl_rsp = as_any client_response (response_from_buf P c W (clock 0))
  of_class clock cl_batch = as_any client_batch (batch_from_buf P c W g_synth_table_size clock)
  of_class clock execute_msg = as_any execution (execute_from_buf P c W (clock 0))
  of_class clock pbft_pre_msg = as_any pre_prepare (pre_from_buf P c W g_synth_table_size clock)
  of_class clock batch_req =
      as_any batch_requests (requests_from_buf P c W g_synth_table_size clock)
  of_class clock pbft_prep_msg = as_any preparation (prep_from_buf P c W (clock 0))
  of_class clock pbft_commit_msg = as_any commitment (commit_from_buf P c W (clock 0))
  of_class clock pbft_chkpt_msg = as_any checkpoint (checkpoint_from_buf P c W (clock 0))
  of_class clock ready =
      place_read (mcopy_from_buf P W (clock 0) (create_message P c ready)) (mget_size P W)
        (λ m. give (ready_server m)) any_size
  of_class clock pbft_view_change = λ buf p. none
  of_class clock pbft_new_view = λ buf p. none

  pub create_from_buf : (ℕ → Double) → Reader (AnyMessage Double Request)
  create_from_buf clock = by_type P c W (of_class clock)

  -- `msg->return_node_id = return_id`
  pub returned : ℕ → AnyMessage Double Request → AnyMessage Double Request
  returned id (key_exchange m) =
      key_exchange (record m { base = record m.base { return_node_id = id } })
  returned id (client_query m) =
      client_query (record m { base = record m.base { return_node_id = id } })
  returned id (client_response m) =
      client_response (record m { base = record m.base { return_node_id = id } })
  returned id (client_batch m) =
      client_batch (record m { base = record m.base { return_node_id = id } })
  returned id (execution m) = execution (record m { base = record m.base { return_node_id = id } })
  returned id (pre_prepare m) =
      pre_prepare (record m { base = record m.base { return_node_id = id } })
  returned id (batch_requests m) =
      batch_requests (record m { base = record m.base { return_node_id = id } })
  returned id (preparation m) =
      preparation (record m { base = record m.base { return_node_id = id } })
  returned id (commitment m) =
      commitment (record m { base = record m.base { return_node_id = id } })
  returned id (checkpoint m) =
      checkpoint (record m { base = record m.base { return_node_id = id } })
  returned id (ready_server m) = ready_server (record m { return_node_id = id })

  -- `clocks i` is the clock for the message i
  pub create_loop : ℕ → (ℕ → ℕ → Double) → ℕ → ℕ → Reader (List (AnyMessage Double Request))
  create_loop zero clocks i id = give []
  create_loop (suc txn_cnt) clocks i id = do
    msg ← create_from_buf (clocks i)
    all_msgs ← create_loop txn_cnt clocks (i + 1) id
    give (returned id msg ∷ all_msgs)

  -- ISCLIENTN(id) || ISSERVERN(id) || ISREPLICAN(id); `g_repl_cnt` is REPLICA_CNT, 0
  unfoldable pub is_node : ℕ → Bool
  is_node id =
      leb c.g_node_cnt id && ltb id (c.g_node_cnt + c.g_client_node_cnt)
      || ltb id c.g_node_cnt
      || leb (c.g_node_cnt + c.g_client_node_cnt) id
        && ltb id (c.g_node_cnt + c.g_client_node_cnt + 0)

  pub create_messages : (ℕ → ℕ → Double) → Reader (List (AnyMessage Double Request))
  create_messages clocks = do
    dest_id ← copy_val W.u32
    return_id ← copy_val W.u32
    txn_cnt ← copy_val W.u32
    lift (assert (dest_id == c.g_node_id))
    lift (assert (not (return_id == c.g_node_id)))
    lift (assert (is_node return_id))
    create_loop txn_cnt clocks 0 return_id
