-- ===== src/System/Execute.antt =====
-- system/worker_thread.cpp: process_execute_msg, with CLIENT_RESPONSE_BATCH; transport/message.cpp:
-- ClientResponseMessage::copy_from_txn. The arrays of the response grow as needed: their class, with its capacity
-- of g_batch_size, is not in the repository. A worker has a transaction manager to itself, so taking and giving
-- back its ready flag is left out. `none` is a failed assert, or the loop that does not end.
pub mod Order
pub mod Machine
pub mod Replication
use algorand.Prelude.{
  ℕ, zero, suc, ◌+◌, ◌-◌, ◌%◌, ◌^◌, ◌≡◌, Bool, true, false, List, [], ◌∷◌, ◌++◌, Option, none, some,
  ◌==◌, ltb, if◌then◌else◌,
}
use algorand.Prelude.Fallible.{◌>>=◌, ◌>>◌, assert}
use algorand.Prelude.Int.{ℤ, pos, ◌-ℤ◌, eqb_ℤ}
use algorand.Transport.Messages.{cl_rsp, IndexedMessage, ClientResponseMessage}
use algorand.System.Node.{
  Platform, Config, TxnManager, Packet, response_packet, Node, g_min_invalid_nodes, sub_u64,
  uint64_max,
}
use algorand.System.Send.{create_from_txn, send_checkpoint_msgs}

module _ (P : Platform) (c : Config) where
  open P.D use {Double}
  open P use {Request}

  abbrev pub response_from_txn : Node P → TxnManager Double Request → ClientResponseMessage Double
  response_from_txn n txn = record {
    base = create_from_txn P c cl_rsp txn;
    index = [];
    client_ts = [];
    view = n.g_view;
  }

  -- one transaction: the assert on its turn, the run, and its lines of the response
  unfoldable pub execute_one :
      ℕ → Node P × ClientResponseMessage Double → Option (Node P × ClientResponseMessage Double)
  execute_one i (n, crsp) = do
    assert (i == n.g_next_index)
    let txn = n.txn_table i
    some (
      record n {
        g_next_index = (n.g_next_index + 1) % 2 ^ 64;
        database = P.run_txn txn n.database;
      },
      record crsp {
        index = crsp.index ++ i ∷ [];
        client_ts = crsp.client_ts ++ txn.client_startts ∷ [];
      },
    )

  -- the transactions from i on, `left` of them
  pub execute_loop :
      ℕ → ℕ → Node P × ClientResponseMessage Double → Option (Node P × ClientResponseMessage Double)
  unfolding execute_one
  execute_loop zero i s = some s
  execute_loop (suc left) i s = do s' ← execute_one i s; execute_loop left (i + 1) s'

  -- `for (uint64_t j = from; j < to; j++) txn_table.release_transaction_manager(..., j, 0);`
  pub release_from : ℕ → ℕ → Node P → Node P
  release_from zero j n = n
  release_from (suc left) j n =
      release_from left (j + 1)
        (record n { txn_table = P.release_transaction_manager j n.txn_table })

  -- after the last transaction i of the batch
  unfoldable pub after_batch : ℕ → Node P → Node P
  unfolding release_from
  after_batch i n =
      if (i + 1) % 2 ^ 64 % c.g_txn_per_chkpt == 0
      then send_checkpoint_msgs P c (n.txn_table i) n
      else if eqb_ℤ (n.txn_table i).commit_rsp_cnt (pos (g_min_invalid_nodes c) -ℤ pos 1)
      then (let from = sub_u64 (i + 1) c.g_batch_size in
          release_from (sub_u64 c.g_batch_size 5 - from) from n)
      else n

  unfoldable pub process_execute_msg : IndexedMessage Double → Node P → Option (Node P)
  unfolding execute_loop after_batch
  process_execute_msg m n = do
    assert (ltb m.end_index uint64_max)
    let left = m.end_index + 1 - m.index
    let i = m.index + left
    s ← execute_loop left m.index (n, response_from_txn n (n.txn_table m.txn_id))
    (n', crsp) ← execute_one i s
    some (
        after_batch i
          (record n' { sent = ((n'.txn_table i).client_id, response_packet crsp) ∷ n'.sent }))
