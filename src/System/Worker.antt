-- ===== src/System/Worker.antt =====
-- system/worker_thread.cpp: send_key, process and process_key_exchange (with ALGORAND, where a key is for the vote).
pub mod Ready
pub mod Keys
use algorand.Prelude.{
  ℕ, zero, suc, ◌+◌, ◌%◌, ◌^◌, not, List, [], ◌∷◌, ◌++◌, Option, none, some, map, length, ◌==◌,
  if◌then◌else◌,
}
use algorand.Prelude.Fallible.{◌>>=◌}
use algorand.Blockchain.Algorand.{getkey, algorand_getkey}
use algorand.Transport.Messages.{
  ClientQueryBatch, BatchRequests, IndexedMessage, CheckpointMessage, KeyExchange, keyex,
}
use algorand.System.Node.{Platform, Config, Packet, ready_packet, keyex_packet, Node}
use algorand.System.Send.{create_message, others_from}
use algorand.System.Prepare.{process_pbft_prep_msg}
use algorand.System.Commit.{process_pbft_commit_msg}
use algorand.System.Checkpoint.{process_pbft_chkpt_msg}
use algorand.System.Execute.{process_execute_msg}
use algorand.System.ClientBatch.{process_client_batch}
use algorand.System.Batch.{process_batch}

module _ (P : Platform) (c : Config) where
  open P.D use {Double}
  open P use {Request}

  -- the message in which this node gives its key
  abbrev pub key_message : Node P → KeyExchange Double
  key_message n = record {
    base = record (create_message P c keyex) { dp = record n.m_dp { type = algorand_getkey } };
    pkey = n.g_public_key;
    pkey_sz = length n.g_public_key;
    return_node = c.g_node_id;
  }

  unfoldable pub send_key : Node P → Node P
  unfolding others_from
  send_key n = record n {
    sent =
        map (λ i. (i, keyex_packet (key_message n)))
          (others_from P c (c.g_node_cnt + c.g_client_node_cnt) 0)
        ++ n.sent;
  }

  -- READY for `left` clients from node i on, the last one first
  pub readies : ℕ → ℕ → List (ℕ × Packet Double Request)
  readies zero i = []
  readies (suc left) i = readies left (i + 1) ++ (i, ready_packet) ∷ []

  unfoldable pub process_key_exchange : KeyExchange Double → Node P → Option (Node P)
  unfolding readies
  process_key_exchange m n = do
    a ←
        if not (m.return_node == 4)
        then getkey P.O m.dp.pk m.dp.node_id n.g_algorand
        else some n.g_algorand
    let tot_key = (n.tot_key + 1) % 2 ^ 64
    let totnodes = c.g_node_cnt + c.g_client_node_cnt
    let n' = record n { g_algorand = a; tot_key = tot_key }
    some (
        if tot_key + 1 == totnodes
        then record n' { sent = readies c.g_client_node_cnt c.g_node_cnt ++ n'.sent }
        else n')

  -- a message with the type that `process` switches on
  pub data Incoming : Type 0 where
    keyex_in : KeyExchange Double → Incoming
    client_batch_in : ClientQueryBatch Double Request → Incoming
    batch_in : BatchRequests Double Request → Incoming
    execute_in prep_in commit_in : IndexedMessage Double → Incoming
    chkpt_in : CheckpointMessage Double → Incoming
    other_in : Incoming

  unfoldable pub process : Incoming → Node P → Option (Node P)
  unfolding process_key_exchange
  process (keyex_in m) n = process_key_exchange m n
  process (client_batch_in m) n = process_client_batch P c m n
  process (batch_in m) n = process_batch P c m n
  process (execute_in m) n = process_execute_msg P c m n
  process (prep_in m) n = process_pbft_prep_msg P c m n
  process (commit_in m) n = process_pbft_commit_msg P c m n
  process (chkpt_in m) n = some (process_pbft_chkpt_msg P c m n).1
  process other_in n = none
