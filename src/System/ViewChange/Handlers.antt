-- ===== src/System/ViewChange/Handlers.antt =====
-- system/worker_thread.cpp, with VIEW_CHANGES: process_pbft_view_change_msg, process_pbft_new_view_msg, reset, the start
-- of a view change in run and the redirection of a client's batch in process_client_batch. The threads that the flags
-- input_view, btsend_view and ctbtch_view are for, and the timers, are left out. `none` is a failed assert or an index past
-- the end of an array.
pub mod Reset
pub mod Log
use algorand.Prelude.{
  update, ℕ, zero, suc, ◌+◌, ◌-◌, ◌*◌, ◌%◌, ◌^◌, ◌≡◌, Bool, true, false, ◌||◌, not, List, [], ◌∷◌,
  ◌++◌, Option, none, some, get_elem?, length, ◌==◌, ltb, leb, if◌then◌else◌,
}
use algorand.Prelude.Fallible.{◌>>=◌, ◌>>◌, assert}
use algorand.Prelude.Int.{pos, ◌-ℤ◌, ltb_ℤ}
use algorand.Transport.Messages.{
  pbft_pre_msg, pbft_prep_msg, pbft_commit_msg, batch_req, BatchRequests, ClientQueryBatch,
  PbftPreMessage, IndexedMessage, PbftViewChangeMsg, PbftNewViewMsg,
}
use algorand.System.Node.{
  Platform, Config, Packet, client_packet, view_change_packet, new_view_packet, Node, TxnManager,
  index_size, g_min_invalid_nodes, sub_u64, uint64_max,
}
use algorand.System.Send.{create_message, broadcast, send_pbft_prep_msgs, send_pbft_commit_msgs}
use algorand.System.Votes.{count_batch_vote}
use algorand.System.Prepare.{set_txn, prepared}
use algorand.System.ClientBatch.{process_client_batch}
use algorand.System.Batch.{add_batch, allocate, not_positive, commit_early, send_batch}
use algorand.System.ViewChange.Stores.{fill, fill_rows}
use algorand.System.ViewChange.{ViewNode, last, init_view_change, add_view_change}
use algorand.System.ViewChange.NewView.{init_new_view, validate_new_view}

-- the fields that create_message leaves as they are
pub record Blank (P : Platform) : Type 0 where
  pub pre : PbftPreMessage P.D.Double P.Request
  pub prep : IndexedMessage P.D.Double
  pub comm : IndexedMessage P.D.Double
  pub breq : BatchRequests P.D.Double P.Request

module _ (P : Platform) (c : Config) (blank : Blank P) (thd_id g_batch_threads : ℕ) where
  open P.D use {Double}
  open P use {Request}

  abbrev pub fresh_txn : TxnManager Double Request → TxnManager Double Request
  fresh_txn txn = record txn {
    prepared = false;
    prep_rsp_cnt = pos (2 * g_min_invalid_nodes c);
    commit_rsp_cnt = pos (2 * g_min_invalid_nodes c + 1);
    committed_local = false;
    requests = [];
  }

  -- the round of the loop of `reset` for a transaction
  reset_txn : ℕ → Node P → Node P
  unfolding set_txn
  reset_txn id n = if id == uint64_max then n else set_txn P c id (fresh_txn (n.txn_table id)) n

  -- the loop over preStore, from the entry i on, `left` of them
  reset_txns : ℕ → ℕ → Node P → Node P
  unfolding reset_txn
  reset_txns zero i n = n
  reset_txns (suc left) i n = reset_txns left (i + 1) (reset_txn (n.pre_store i).txn_id n)

  -- `reset` of the worker
  unfoldable pub reset : ViewNode P → ViewNode P
  unfolding reset_txns fill fill_rows
  reset v =
      let size = index_size c in
      let n = reset_txns size 0 v.node in
      record v {
        node = record n {
          pre_store =
              fill size 0 (record blank.pre { base = create_message P c pbft_pre_msg }) n.pre_store;
          prep_store =
              fill_rows size 0 c.g_node_cnt
                (record blank.prep { base = create_message P c pbft_prep_msg; index = uint64_max })
                n.prep_store;
          comm_store =
              fill_rows size 0 c.g_node_cnt
                (record blank.comm {
                  base = create_message P c pbft_commit_msg;
                  index = uint64_max;
                })
                n.comm_store;
        };
        breq_store =
            fill size 0 (record blank.breq { base = create_message P c batch_req }) v.breq_store;
      }

  -- send_pbft_prep_msgs of the transaction's manager, with VIEW_CHANGES
  unfoldable pub send_prep_counted : ℕ → Node P → Option (Node P)
  unfolding set_txn
  send_prep_counted id n = do
    n' ← send_pbft_prep_msgs P c (n.txn_table id) n
    let txn = n'.txn_table id
    some (set_txn P c id (record txn { prep_rsp_cnt = txn.prep_rsp_cnt -ℤ pos 1 }) n')

  -- send_pbft_commit_msgs, the same way
  unfoldable pub send_commit_counted : ℕ → Node P → Option (Node P)
  unfolding set_txn
  send_commit_counted id n = do
    n' ← send_pbft_commit_msgs P c (n.txn_table id) n
    let txn = n'.txn_table id
    some (
        if ltb_ℤ (pos 0) txn.commit_rsp_cnt
        then set_txn P c id (record txn { commit_rsp_cnt = txn.commit_rsp_cnt -ℤ pos 1 }) n'
        else n')

  -- process_batch, with VIEW_CHANGES
  unfoldable pub receive_batch_view :
      BatchRequests Double Request → ViewNode P → Option (ViewNode P)
  unfolding add_batch send_prep_counted send_commit_counted
  receive_batch_view breq v = do
    n1 ← add_batch P c breq v.node
    cindex ← get_elem? breq.index (last P c)
    n2 ← allocate P c breq c.g_batch_size 0 n1
    n3 ← count_batch_vote P breq.dp n2
    n4 ← send_prep_counted cindex n3
    let stored = update v.breq_store (cindex % index_size c) breq
    if not_positive P c (n4.txn_table cindex).prep_rsp_cnt
        then (do
          (found, n5) ← prepared P c cindex n4
          if found
              then (do
                n6 ← send_commit_counted cindex n5
                n7 ← commit_early P c cindex n6
                some (record v { node = n7; breq_store = stored }))
              else some (record v { node = n5; breq_store = stored }))
        else some (record v { node = n4; breq_store = stored })

  unfoldable pub process_batch_view :
      BatchRequests Double Request → ViewNode P → Option (ViewNode P)
  unfolding receive_batch_view
  process_batch_view breq v =
      if c.g_node_id == v.node.g_view
      then (do n ← send_batch P c breq v.node; some (record v { node = n }))
      else receive_batch_view breq v

  -- the pre-prepare messages of one batch of the new view
  pub log_pres : BatchRequests Double Request → ℕ → ℕ → Node P → Option (Node P)
  log_pres bmsg zero j n = some n
  log_pres bmsg (suc left) j n = do
    index ← get_elem? bmsg.index j
    h ← get_elem? bmsg.hash j
    h_size ← get_elem? bmsg.hash_size j
    q ← get_elem? bmsg.request_msg j
    log_pres bmsg left (j + 1) (record n {
      pre_store = update n.pre_store (index % index_size c) (record blank.pre {
        base = record (create_message P c pbft_pre_msg) { txn_id = index };
        index = index;
        hash_size = h_size;
        hash = h;
        request_msg = q;
      });
    })

  pub log_new_batches : List (BatchRequests Double Request) → ViewNode P → Option (ViewNode P)
  unfolding log_pres
  log_new_batches [] v = some v
  log_new_batches (bmsg ∷ bs) v = do
    idx ← get_elem? bmsg.index (last P c)
    n ← log_pres bmsg c.g_batch_size 0 v.node
    log_new_batches bs
        (record v { node = n; breq_store = update v.breq_store (idx % index_size c) bmsg })

  -- whether one of the `left` entries of cqryStore from j on has the time of the batch's first query
  pub is_known : Node P → ClientQueryBatch Double Request → ℕ → ℕ → Option Bool
  is_known n btch zero j = some false
  is_known n btch (suc left) j = do
    query ← get_elem? btch.cqry_set 0
    rest ← is_known n btch left (j + 1)
    some (query.client_startts == (n.cqry_store j).client_startts || rest)

  -- the batches that are new go to the work queue
  pub requeue : List (ClientQueryBatch Double Request) → Node P → Option (Node P)
  unfolding is_known
  requeue [] n = some n
  requeue (btch ∷ bs) n = do
    known ← is_known n btch (index_size c) 0
    requeue bs (if known then n else record n { work = client_packet btch ∷ n.work })

  -- the new primary moves to its view, and takes up the messages that waited
  abbrev pub enter_view : ViewNode P → ViewNode P
  enter_view v = record v {
    node = record v.node { g_view = c.g_node_id; work = v.g_msg_wait ++ v.node.work };
    local_view = update v.local_view thd_id c.g_node_id;
    g_msg_wait = [];
  }

  -- the end of the change
  abbrev pub end_change : ViewNode P → Node P → ViewNode P
  end_change v n = record v {
    node = record n {
      expected_batch_count = sub_u64 ((n.g_next_index + c.g_batch_size) % 2 ^ 64) 3;
    };
    g_changing_view = false;
    input_view = true;
    btsend_view = true;
    ctbtch_view = fill g_batch_threads 0 true v.ctbtch_view;
    g_pbft_view_change_msgs = [];
    g_redirected_requests = [];
  }

  -- what the new primary does
  unfoldable pub become_primary : ViewNode P → Option (ViewNode P)
  unfolding init_new_view reset log_new_batches requeue fill
  become_primary v = do
    (nvmsg, v1) ← init_new_view P c (enter_view v)
    v2 ← log_new_batches nvmsg.pre_prepare_messages (reset v1)
    n ← requeue v2.g_redirected_requests (broadcast P c (new_view_packet nvmsg) v2.node)
    some (end_change v2 n)

  -- once the message is in the log
  unfoldable pub after_logging : ℕ → Bool → ViewNode P → Option (ViewNode P)
  unfolding become_primary
  after_logging next enough v =
      if not enough then some v else if c.g_node_id == next then become_primary v else some v

  unfoldable pub process_pbft_view_change_msg :
      PbftViewChangeMsg Double Request → ViewNode P → Option (ViewNode P)
  unfolding add_view_change after_logging
  process_pbft_view_change_msg m v =
      let next = (v.node.g_view + 1) % c.g_node_cnt in
      if c.g_node_id == v.node.g_view || leb m.view v.node.g_view then some v else (do
        assert (m.view == next)
        (enough, v') ← add_view_change P c m v
        after_logging next enough v')

  pub process_batches : List (BatchRequests Double Request) → ViewNode P → Option (ViewNode P)
  unfolding process_batch_view
  process_batches [] v = some v
  process_batches (b ∷ bs) v = do v' ← process_batch_view b v; process_batches bs v'

  unfoldable pub process_pbft_new_view_msg :
      PbftNewViewMsg Double Request → ViewNode P → Option (ViewNode P)
  unfolding validate_new_view reset process_batches
  process_pbft_new_view_msg m v = do
    validate_new_view P c m
    let v1 = reset v
    process_batches m.pre_prepare_messages (record v1 {
      node = record v1.node { g_view = m.view % 2 ^ 32 };
      local_view = update v1.local_view thd_id (m.view % 2 ^ 32);
      g_changing_view = false;
    })

  -- the loop of `run` that sends the message to the nodes from i on, `left` of them, and to the node itself
  pub send_view_change : PbftViewChangeMsg Double Request → ℕ → ℕ → ViewNode P → Option (ViewNode P)
  unfolding process_pbft_view_change_msg
  send_view_change m zero i v = some v
  send_view_change m (suc left) i v = do
    v' ←
        (if i == v.node.g_view
          then some v
          else if i == c.g_node_id
          then process_pbft_view_change_msg m v
          else some (record v {
            node = record v.node { sent = (i, view_change_packet m) ∷ v.node.sent };
          }))
    send_view_change m left (i + 1) v'

  -- what `run` does when the timer of a backup has run out
  unfoldable pub begin_view_change : ViewNode P → Option (ViewNode P)
  unfolding init_view_change send_view_change
  begin_view_change v =
      if c.g_node_id == v.node.g_view || v.g_changing_view
      then some v
      else (let v1 = record v { g_changing_view = true } in
          if c.g_node_id == (v.node.g_view + 1) % c.g_node_cnt
          then some v1
          else (do m ← init_view_change P c v1; send_view_change m c.g_node_cnt 0 v1))

  -- process_client_batch, with VIEW_CHANGES; the batch of a client that did not send it to the primary is kept and sent on
  unfoldable pub redirect_client_batch :
      ClientQueryBatch Double Request → ViewNode P → Option (ViewNode P)
  unfolding process_client_batch
  redirect_client_batch btch v =
      let primary = v.local_view thd_id in
      if c.g_node_id == primary
      then (do n ← process_client_batch P c btch v.node; some (record v { node = n }))
      else (do
        assert (ltb (length v.g_redirected_requests) (3 * c.g_client_node_cnt * c.g_inflight_max))
        some (record v {
          node = record v.node { sent = (primary, client_packet btch) ∷ v.node.sent };
          g_redirected_requests =
              v.g_redirected_requests
              ++ record btch { base = record btch.base { txn_id = 0 } } ∷ [];
        }))
