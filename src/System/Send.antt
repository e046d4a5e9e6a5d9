-- ===== src/System/Send.antt =====
-- The messages that a node makes from a transaction manager and sends: transport/message.cpp
-- (create_message, copy_from_txn, sign) and system/txn.cpp (send_pbft_prep_msgs, send_pbft_commit_msgs,
-- send_checkpoint_msgs). The deep copies go through a buffer and back, which changes only the
-- latencies. `none` is a failed assert.
pub mod Laws
use algorand.Prelude.{
  update, ℕ, zero, suc, ◌+◌, ◌-◌, ◌%◌, ◌≡◌, Bool, true, false, not, List, [], ◌∷◌, ◌++◌, map,
  Option, none, some, Text, codes, replicate, length, ◌==◌, if◌then◌else◌,
}
use algorand.Prelude.Fallible.{◌>>=◌, ◌>>◌, assert}
use algorand.Prelude.Int.{ℤ, pos, to_int, ◌-ℤ◌}
use algorand.Blockchain.Algorand.{DataPackage, algorand_init, algorand_sort}
use algorand.Blockchain.Sortition.{sortition}
use algorand.Blockchain.Votes.{count_votes}
use algorand.Transport.Messages.{
  RemReqType, pbft_prep_msg, pbft_commit_msg, pbft_chkpt_msg, execute_msg, Latencies, Message,
  PbftPreMessage, IndexedMessage, CheckpointMessage,
}
use algorand.System.Node.{
  Platform, Config, TxnManager, Packet, prep_packet, commit_packet, chkpt_packet, Node, index_size,
  sub_u64, uint64_max,
}

-- the constructor of dataPackage
abbrev pub empty_package : DataPackage
empty_package = record {
  seed = replicate 20 b'0';
  hash = replicate 20 b'0';
  proof = replicate 256 b'0';
  value = replicate 64 b'0';
  j = pos 0;
  node_id = pos 0;
  pk = replicate 426 b'0';
  type = algorand_init;
}

module _ (P : Platform) (c : Config) where
  open P.D use {Double, of_ℤ}
  open P use {Request}

  abbrev pub no_latencies : Latencies Double
  no_latencies =
      let z = of_ℤ (pos 0) in
      record {
        work_queue = z;
        msg_queue = z;
        cc_block = z;
        cc_time = z;
        process_time = z;
        network = z;
        other = z;
      }

  -- create_message(RemReqType): the part that all the classes share
  unfoldable pub create_message : RemReqType → Message Double
  create_message rtype = record {
    rtype = rtype;
    txn_id = uint64_max;
    batch_id = uint64_max;
    return_node_id = c.g_node_id;
    wq_time = 0;
    mq_time = 0;
    ntwk_time = 0;
    sig_size = 1;
    key_size = 1;
    signature = codes "0";
    pub_key = codes "0";
    dp = empty_package;
    lat = no_latencies;
  }

  -- create_message(TxnManager *, RemReqType) without copy_from_txn of the class
  unfoldable pub create_from_txn : RemReqType → TxnManager Double Request → Message Double
  create_from_txn rtype txn = record (create_message rtype) { txn_id = txn.txn_id; lat = txn.lat }

  -- sign(), without USE_CRYPTO
  unfoldable pub sign : Node P → Message Double → Message Double
  sign n m = record m {
    signature = codes "0";
    pub_key = n.pub_key;
    sig_size = 1;
    key_size = length n.pub_key;
  }

  -- copy_from_txn of PBFTPrepMessage and of PBFTCommitMessage: the message speaks for the batch that
  -- ends with the transaction
  unfoldable pub indexed_from_txn :
      RemReqType → Node P → TxnManager Double Request → Option (IndexedMessage Double)
  indexed_from_txn rtype n txn =
      let premsg = n.pre_store (txn.txn_id % index_size c) in
      do
        assert (premsg.txn_id == txn.txn_id)
        some (record {
          base = sign n (create_from_txn rtype txn);
          view = n.g_view;
          index = sub_u64 (premsg.index + 1) c.g_batch_size;
          hash = premsg.hash;
          hash_size = premsg.hash_size;
          return_node = c.g_node_id;
          end_index = premsg.index;
          batch_size = c.g_batch_size;
        })

  unfoldable pub prep_from_txn : Node P → TxnManager Double Request → Option (IndexedMessage Double)
  unfolding indexed_from_txn
  prep_from_txn n txn = do
    assert (not (n.g_view == c.g_node_id))
    indexed_from_txn pbft_prep_msg n txn

  -- the nodes from i on, `left` of them, without this one
  unfoldable pub others_from : ℕ → ℕ → List ℕ
  others_from zero i = []
  others_from (suc left) i =
      let rest = others_from left (i + 1) in if i == c.g_node_id then rest else i ∷ rest

  -- `for (i = 0; i < g_node_cnt; i++) if (i != g_node_id) msg_queue.enqueue(..., i);`
  unfoldable pub broadcast : Packet Double Request → Node P → Node P
  unfolding others_from
  broadcast packet n = record n {
    sent = map (λ i. (i, packet)) (others_from c.g_node_cnt 0) ++ n.sent;
  }

  -- The rows have g_node_cnt entries, which each caller checks of a message of another node.
  abbrev pub store :
      (ℕ → ℕ → IndexedMessage Double) → IndexedMessage Double → ℕ → ℕ → IndexedMessage Double
  store rows m =
      let row = m.end_index % index_size c in update rows row (update (rows row) m.return_node m)

  -- the part of send_pbft_prep_msgs and process_batch that draws this node's votes and counts them
  unfoldable pub draw_votes : Node P → Option (Node P)
  draw_votes n = do
    (a, temp) ←
        sortition P.D P.O P.fuel (pos 20) (to_int n.g_algorand.m_wallet) n.g_algorand.sum_w
          n.m_dp.value n.g_algorand
    let m_dp = record n.m_dp {
      seed = a.seed;
      proof = temp.proof;
      hash = temp.hash;
      j = temp.j;
      node_id = pos c.g_node_id;
    }
    some
        (record n { m_dp = m_dp; g_algorand = (count_votes P.D P.O P.agreement (pos 20) m_dp a).0 })

  unfoldable pub send_pbft_prep_msgs : TxnManager Double Request → Node P → Option (Node P)
  unfolding prep_from_txn broadcast draw_votes
  send_pbft_prep_msgs txn n = do
    pmsg ← prep_from_txn n txn
    n' ← draw_votes (record n { prep_store = store n.prep_store pmsg })
    some (
        broadcast
          (prep_packet (record pmsg {
            base = record pmsg.base { dp = record n'.m_dp { type = algorand_sort } };
          }))
          n')

  unfoldable pub send_pbft_commit_msgs : TxnManager Double Request → Node P → Option (Node P)
  unfolding indexed_from_txn broadcast
  send_pbft_commit_msgs txn n = do
    cmsg ← indexed_from_txn pbft_commit_msg n txn
    some (
        broadcast (commit_packet (record cmsg { base = record cmsg.base { dp = n.m_dp } }))
          (record n { comm_store = store n.comm_store cmsg }))

  -- copy_from_txn of CheckpointMessage
  unfoldable pub chkpt_from_txn : Node P → TxnManager Double Request → CheckpointMessage Double
  chkpt_from_txn n txn = record {
    base = sign n (record (create_from_txn pbft_chkpt_msg txn) { txn_id = sub_u64 txn.txn_id 5 });
    index = sub_u64 n.g_next_index 5;
    return_node = c.g_node_id;
    beg_index = sub_u64 n.g_next_index c.g_txn_per_chkpt;
  }

  unfoldable pub send_checkpoint_msgs : TxnManager Double Request → Node P → Node P
  unfolding chkpt_from_txn broadcast
  send_checkpoint_msgs txn n = broadcast (chkpt_packet (chkpt_from_txn n txn)) n
