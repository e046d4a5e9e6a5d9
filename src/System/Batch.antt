-- ===== src/System/Batch.antt =====
-- system/worker_thread.cpp: process_batch; transport/message.cpp: BatchRequests::addAndValidate and validate,
-- without USE_CRYPTO. `none` is a failed assert or a read past the end of an array.
pub mod Digest
use algorand.Prelude.{
  update, ℕ, zero, suc, ◌+◌, ◌-◌, ◌%◌, ◌^◌, Bool, true, false, ◌&&◌, not, ◌∷◌, ◌++◌, Option, some,
  text_eq, get_elem?, ◌==◌, if◌then◌else◌,
}
use algorand.Prelude.Fallible.{◌>>=◌, ◌>>◌, assert}
use algorand.Prelude.Int.{ℤ, pos, negsuc}
use algorand.Blockchain.Algorand.{algorand_init}
use algorand.Transport.Messages.{BatchRequests, IndexedMessage}
use algorand.System.Node.{Platform, Config, batch_packet, execute_packet, Node, index_size, sub_u64}
use algorand.System.Send.{broadcast, draw_votes, send_pbft_prep_msgs, send_pbft_commit_msgs}
use algorand.System.Votes.{count_batch_vote}
use algorand.System.Prepare.{set_txn, prepared}
use algorand.System.Commit.{committed_local, execute_from_txn}
use algorand.System.ClientBatch.{digest_of}

module _ (P : Platform) (c : Config) where
  open P.D use {Double}
  open P use {Request}

  -- the loop of `validate`, `left` requests from the i-th on
  unfoldable pub check_hashes : BatchRequests Double Request → ℕ → ℕ → Option (Unit {0})
  check_hashes breq zero i = some tt
  check_hashes breq (suc left) i = do
    h ← get_elem? breq.hash i
    q ← get_elem? breq.request_msg i
    assert (text_eq h (digest_of P c q))
    check_hashes breq left (i + 1)

  -- the loop of `addAndValidate`: no request of the batch may be in the log already
  pub log_batch : BatchRequests Double Request → ℕ → ℕ → Node P → Option (Node P)
  log_batch breq zero i n = some n
  log_batch breq (suc left) i n = do
    index ← get_elem? breq.index i
    h ← get_elem? breq.hash i
    h_size ← get_elem? breq.hash_size i
    q ← get_elem? breq.request_msg i
    let row = index % index_size c
    let premsg = n.pre_store row
    assert (not (premsg.index == index && text_eq premsg.hash h))
    log_batch breq left (i + 1) (record n {
      pre_store = update n.pre_store row (record premsg {
        base = record premsg.base { txn_id = index };
        index = index;
        hash_size = h_size;
        hash = h;
        request_msg = q;
      });
      cqry_store = update n.cqry_store row q;
    })

  unfoldable pub add_batch : BatchRequests Double Request → Node P → Option (Node P)
  unfolding check_hashes log_batch
  add_batch breq n = do
    check_hashes breq c.g_batch_size 0
    assert (breq.view == n.g_view)
    log_batch breq c.g_batch_size 0 n

  -- the transaction managers of `left` requests from the i-th on
  pub allocate : BatchRequests Double Request → ℕ → ℕ → Node P → Option (Node P)
  unfolding set_txn
  allocate breq zero i n = some n
  allocate breq (suc left) i n = do
    index ← get_elem? breq.index i
    q ← get_elem? breq.request_msg i
    let txn = n.txn_table index
    allocate breq left (i + 1) (
        set_txn P c index
          (record txn {
            return_id = breq.return_node_id;
            client_id = q.return_node;
            client_startts = q.client_startts;
            requests = txn.requests ++ q.requests;
          })
          n)

  unfoldable pub not_positive : ℤ → Bool
  not_positive (pos zero) = true
  not_positive (pos (suc k)) = false
  not_positive (negsuc k) = true

  -- the first commit message for the transaction, of the `left + 1` entries of its row from i on; the last
  -- entry, if there is none
  pub find_commit : Node P → ℕ → ℕ → ℕ → IndexedMessage Double
  find_commit n cindex zero i = n.comm_store (cindex % index_size c) i
  find_commit n cindex (suc left) i =
      let rest = find_commit n cindex left (i + 1) in
      if (n.comm_store (cindex % index_size c) i).txn_id == cindex
      then n.comm_store (cindex % index_size c) i
      else rest

  -- enough commit messages came before the pre-prepare message
  unfoldable pub commit_early : ℕ → Node P → Option (Node P)
  unfolding find_commit not_positive
  commit_early cindex n =
      if not_positive (n.txn_table cindex).commit_rsp_cnt
      then (do
        (done, n') ← committed_local P c (find_commit n cindex (c.g_node_cnt - 1) 0) n
        if done
            then (do
              tmsg ← execute_from_txn P c n' (n'.txn_table cindex)
              some (record n' { work = execute_packet tmsg ∷ n'.work }))
            else some n')
      else some n

  -- enough prepare messages came before the pre-prepare message
  unfoldable pub prepare_early : ℕ → Node P → Option (Node P)
  unfolding commit_early not_positive
  prepare_early cindex n =
      if not_positive (n.txn_table cindex).prep_rsp_cnt
      then (do
        (found, n') ← prepared P c cindex n
        if found
            then (do
              n2 ← send_pbft_commit_msgs P c (n'.txn_table cindex) n'
              commit_early cindex n2)
            else some n')
      else some n

  unfoldable pub receive_batch : BatchRequests Double Request → Node P → Option (Node P)
  unfolding add_batch allocate prepare_early
  receive_batch breq n = do
    n1 ← add_batch breq n
    n2 ← allocate breq c.g_batch_size 0 n1
    cindex ← get_elem? breq.index (sub_u64 c.g_batch_size 1)
    n3 ← count_batch_vote P breq.dp n2
    n4 ← send_pbft_prep_msgs P c (n3.txn_table cindex) n3
    prepare_early cindex n4

  unfoldable pub send_batch : BatchRequests Double Request → Node P → Option (Node P)
  send_batch breq n = do
    n' ← draw_votes P c n
    let packet =
        batch_packet
          (record breq { base = record breq.base { dp = record n'.m_dp { type = algorand_init } } })
    some (record (broadcast P c packet n') {
      expected_batch_count = (c.g_batch_size + breq.txn_id) % 2 ^ 64;
    })

  unfoldable pub process_batch : BatchRequests Double Request → Node P → Option (Node P)
  unfolding receive_batch send_batch
  process_batch breq n = if c.g_node_id == n.g_view then send_batch breq n else receive_batch breq n
