-- ===== src/System/Commit.antt =====
-- system/worker_thread.cpp: process_pbft_commit_msg and committed_local; transport/message.cpp:
-- PBFTCommitMessage::addAndValidate and ExecuteMessage::copy_from_txn. `none` is a failed assert, or undefined
-- behaviour at the end of the round.
pub mod Quorum
pub mod Progress
use algorand.Prelude.{
  update, ℕ, zero, suc, ◌+◌, ◌-◌, ◌*◌, ◌%◌, ◌≡◌, Bool, true, false, ◌&&◌, not, List, ◌∷◌, Option,
  none, some, Text, text_eq, get_elem?, ◌==◌, leb, ltb, if◌then◌else◌,
}
use algorand.Prelude.Fallible.{◌>>=◌, ◌>>◌, assert}
use algorand.Prelude.Int.{ℤ, pos, negsuc, ◌-ℤ◌}
use algorand.Blockchain.Algorand.{execute, reset, algorand_reset}
use algorand.Transport.Messages.{IndexedMessage, execute_msg}
use algorand.System.Node.{
  Platform, Config, TxnManager, Packet, execute_packet, Node, index_size, g_min_invalid_nodes,
  sub_u64,
}
use algorand.System.Send.{store, create_message, create_from_txn}
use algorand.System.Prepare.{set_txn, is_zero}

-- `(int) c` for a `char`, which is signed
abbrev pub int_of_char : ℕ → ℤ
int_of_char c = if ltb c 128 then pos c else pos c -ℤ pos 256

module _ (P : Platform) (c : Config) where
  open P.D use {Double}
  open P use {Request}

  unfoldable pub add_commit : IndexedMessage Double → Node P → Option (Node P)
  add_commit m n = do
    assert (m.view == n.g_view)
    assert (ltb m.return_node c.g_node_cnt)
    some (record n { comm_store = store P c n.comm_store m })

  -- The first prepare message of the row with the index, of the `left + 1` entries from i on; the last entry, if
  -- there is none.
  unfoldable pub find_prep : Node P → ℕ → ℕ → ℕ → ℕ → IndexedMessage Double
  find_prep n row index zero i = n.prep_store row i
  find_prep n row index (suc left) i =
      let rest = find_prep n row index left (i + 1) in
      if (n.prep_store row i).index == index then n.prep_store row i else rest

  -- The loop that counts the commit messages of the row with the index of the prepare message, and asserts
  -- that they agree with it and with each other.
  count_commits : Node P → ℕ → IndexedMessage Double → ℕ → ℕ → ℕ → Option ℕ
  count_commits n row pmsg zero i k = some k
  count_commits n row pmsg (suc left) i k =
      let m = n.comm_store row i in
      let skip = count_commits n row pmsg left (i + 1) k in
      let next = count_commits n row pmsg left (i + 1) (k + 1) in
      if not (m.index == pmsg.index)
      then skip
      else if text_eq pmsg.hash m.hash && (pmsg.view == m.view && pmsg.end_index == m.end_index)
      then next
      else none

  unfoldable pub committed_local : IndexedMessage Double → Node P → Option (Bool × Node P)
  unfolding find_prep count_commits
  committed_local m n =
      let txn = n.txn_table m.txn_id in
      let row = m.txn_id % index_size c in
      let pmsg = find_prep n row m.index (c.g_node_cnt - 1) 0 in
      if not txn.prepared then some (false, n) else (do
        k ← count_commits n row pmsg c.g_node_cnt 0 0
        some (
            if ltb k (2 * g_min_invalid_nodes c + 1)
            then (false, n)
            else (true, set_txn P c m.txn_id (record txn { committed_local = true }) n)))

  -- The message for the execution thread speaks for the batch that ends with the transaction.
  unfoldable pub execute_from_txn :
      Node P → TxnManager Double Request → Option (IndexedMessage Double)
  execute_from_txn n txn =
      let txn_id = sub_u64 txn.txn_id 1 in
      let premsg = n.pre_store (txn_id % index_size c) in
      do
        assert (premsg.txn_id == txn_id)
        some (record {
          base = record (create_from_txn P c execute_msg txn) { txn_id = txn_id };
          view = n.g_view;
          index = sub_u64 (txn.txn_id + 1) c.g_batch_size;
          hash = premsg.hash;
          hash_size = premsg.hash_size;
          return_node = c.g_node_id;
          end_index = premsg.index;
          batch_size = c.g_batch_size;
        })

  -- The end of the round: the simulated execution and the reset.
  unfoldable pub end_round : Node P → Option (Node P)
  end_round n = do
    first ← get_elem? n.m_dp.seed 0
    a ← execute P.O (int_of_char first) n.g_algorand
    a' ← reset P.O a
    some (record n {
      g_algorand = a';
      m_dp = record n.m_dp { seed = a'.seed; type = algorand_reset };
    })

  enqueue_execute : ℕ → Node P → Option (Node P)
  unfolding execute_from_txn end_round
  enqueue_execute txn_id n = do
    tmsg ← execute_from_txn n (n.txn_table txn_id)
    end_round (record n { work = execute_packet tmsg ∷ n.work })

  unfoldable pub execute_if_committed : IndexedMessage Double → Node P → Option (Node P)
  unfolding enqueue_execute committed_local
  execute_if_committed m n = do
    (done, n') ← committed_local m n
    if done then enqueue_execute m.txn_id n' else some n'

  unfoldable pub process_pbft_commit_msg : IndexedMessage Double → Node P → Option (Node P)
  unfolding add_commit execute_if_committed
  process_pbft_commit_msg m n = do
    n1 ← add_commit m n
    let txn = n1.txn_table m.txn_id
    let left = txn.commit_rsp_cnt -ℤ pos 1
    let n2 = set_txn P c m.txn_id (record txn { commit_rsp_cnt = left }) n1
    if is_zero P c left && not txn.committed_local then execute_if_committed m n2 else some n2
