-- ===== src/System/Prepare.antt =====
-- system/worker_thread.cpp: process_pbft_prep_msg and prepared; transport/message.cpp:
-- PBFTPrepMessage::addAndValidate. Without USE_CRYPTO its `validate` accepts every message. `none` is a
-- failed assert, or a write past the end of a row of the log.
pub mod Quorum
pub mod Progress
use algorand.Prelude.{
  update, ℕ, zero, suc, ◌+◌, ◌-◌, ◌*◌, ◌%◌, ◌≡◌, Bool, true, false, ◌&&◌, not, Option, none, some,
  ◌==◌, ltb, leb, if◌then◌else◌,
}
use algorand.Prelude.Fallible.{◌>>=◌, ◌>>◌, assert}
use algorand.Prelude.Int.{ℤ, pos, negsuc, ◌-ℤ◌}
use algorand.Transport.Messages.{IndexedMessage}
use algorand.System.Node.{Platform, Config, TxnManager, Node, index_size, g_min_invalid_nodes}
use algorand.System.Send.{store, send_pbft_commit_msgs}
use algorand.System.Votes.{count_prep_vote}

module _ (P : Platform) (c : Config) where
  open P.D use {Double}
  open P use {Request}

  unfoldable pub add_prep : IndexedMessage Double → Node P → Option (Node P)
  add_prep m n = do
    assert (m.view == n.g_view)
    assert (ltb m.return_node c.g_node_cnt)
    some (record n { prep_store = store P c n.prep_store m })

  -- whether each of `left` transactions from i on has its client's query in the log
  unfoldable pub queries_logged : Node P → ℕ → ℕ → Bool
  queries_logged n zero i = true
  queries_logged n (suc left) i =
      (n.cqry_store (i % index_size c)).txn_id == i && queries_logged n left (i + 1)

  -- the same for the pre-prepare messages
  unfoldable pub preprepares_logged : Node P → ℕ → ℕ → Bool
  preprepares_logged n zero i = true
  preprepares_logged n (suc left) i =
      (n.pre_store (i % index_size c)).txn_id == i && preprepares_logged n left (i + 1)

  -- The range of the first message that matches, once one was found.
  abbrev Range : Type 0
  Range = Option (ℕ × ℕ)

  same_range : Range → IndexedMessage Double → Bool
  same_range none m = true
  same_range (some (bidx, eidx)) m = m.end_index == eidx && m.index == bidx

  range_of : Range → IndexedMessage Double → ℕ × ℕ
  range_of none m = (m.index, m.end_index)
  range_of (some r) m = r

  -- The loop of `prepared` over the nodes from i on, `left` of them, with the number j of messages that match so
  -- far. A missing query is a failed assert at the primary.
  prepared_loop : Node P → ℕ → ℕ → ℕ → Range → ℕ → Option Bool
  unfolding queries_logged preprepares_logged same_range range_of
  prepared_loop n txn_id zero i range j = some false
  prepared_loop n txn_id (suc left) i range j =
      let m = n.prep_store (txn_id % index_size c) i in
      let (bidx, eidx) = range_of range m in
      let skip = prepared_loop n txn_id left (i + 1) range j in
      let next = prepared_loop n txn_id left (i + 1) (some (bidx, eidx)) (j + 1) in
      if not (m.txn_id == txn_id)
      then skip
      else if not (same_range range m)
      then none
      else if not (queries_logged n (eidx + 1 - bidx) bidx)
      then if c.g_node_id == n.g_view then none else some false
      else if not (preprepares_logged n (eidx + 1 - bidx) bidx)
      then none
      else if leb (2 * g_min_invalid_nodes c) (j + 1)
      then some true
      else next

  unfoldable pub set_txn : ℕ → TxnManager Double Request → Node P → Node P
  set_txn txn_id txn n = record n { txn_table = update n.txn_table txn_id txn }

  -- `prepared`: the result, and the node with the flag of its transaction manager
  unfoldable pub prepared : ℕ → Node P → Option (Bool × Node P)
  unfolding prepared_loop set_txn
  prepared txn_id n =
      let txn = n.txn_table txn_id in
      if txn.prepared then some (true, n) else (do
        found ← prepared_loop n txn_id c.g_node_cnt 0 none 0
        some (found, if found then set_txn txn_id (record txn { prepared = true }) n else n))

  -- `if (responses_left == 0 && !prepared) if (prepared()) send_pbft_commit_msgs();`
  unfoldable pub commit_if_prepared : ℕ → Node P → Option (Node P)
  unfolding prepared
  commit_if_prepared txn_id n = do
    (found, n') ← prepared txn_id n
    if found then send_pbft_commit_msgs P c (n'.txn_table txn_id) n' else some n'

  unfoldable pub is_zero : ℤ → Bool
  is_zero (pos zero) = true
  is_zero (pos (suc k)) = false
  is_zero (negsuc k) = false

  count_response : ℕ → Node P → Option (Node P)
  unfolding is_zero commit_if_prepared set_txn
  count_response txn_id n =
      let txn = n.txn_table txn_id in
      let left = txn.prep_rsp_cnt -ℤ pos 1 in
      let n' = set_txn txn_id (record txn { prep_rsp_cnt = left }) n in
      if is_zero left && not txn.prepared then commit_if_prepared txn_id n' else some n'

  unfoldable pub process_pbft_prep_msg : IndexedMessage Double → Node P → Option (Node P)
  unfolding add_prep count_response
  process_pbft_prep_msg m n = do
    n1 ← add_prep m n
    n2 ← count_prep_vote P m.dp n1
    count_response m.txn_id n2
