-- ===== src/System/Node.antt =====
-- system/global.h, system/global.cpp and the stores of transport/message.cpp: what a server node keeps.
-- A vector that is always read at an index modulo `indexSize` is a function; the transaction table
-- (its class is not in the repository) gives each identifier its own manager.
use algorand.Prelude.{ℕ, ◌+◌, ◌-◌, ◌*◌, ◌/◌, ◌%◌, ◌^◌, List, Text, Bool}
use algorand.Prelude.Int.{ℤ}
use algorand.Blockchain.Double.{Doubles}
use algorand.Blockchain.Vrf.{Openssl}
use algorand.Blockchain.Algorand.{Algorand, DataPackage}
use algorand.Transport.Messages.{
  Latencies, YcsbClientQueryMessage, BatchRequests, PbftPreMessage, IndexedMessage,
  CheckpointMessage, ClientResponseMessage, KeyExchange, ClientQueryBatch, PbftViewChangeMsg,
  PbftNewViewMsg,
}

-- config.h and system/global.cpp
pub record Config : Type 0 where
  pub g_node_id : ℕ
  pub g_node_cnt : ℕ
  pub g_client_node_cnt : ℕ
  pub g_inflight_max : ℕ
  pub g_batch_size : ℕ
  pub g_txn_per_chkpt : ℕ

abbrev pub index_size : Config → ℕ
index_size c = 2 * c.g_client_node_cnt * c.g_inflight_max

abbrev pub g_min_invalid_nodes : Config → ℕ
g_min_invalid_nodes c = (c.g_node_cnt - 1) / 3

-- the part of class TxnManager that the shipped configuration uses
pub record TxnManager (R Request : Type 0) : Type 0 where
  pub txn_id : ℕ
  pub return_id : ℕ
  pub client_id : ℕ
  pub client_startts : ℕ
  pub requests : List Request
  pub prepared : Bool
  pub cbatch : ℕ
  pub prep_rsp_cnt : ℤ
  pub commit_rsp_cnt : ℤ
  pub committed_local : Bool
  -- the statistics that messages carry
  pub lat : Latencies R

-- What the program takes from elsewhere: floating point, OpenSSL, picosha2::hash256_hex_string,
-- std::to_string, the requests of the benchmark with their key and the text that `+= value` appends, the workload's run_txn and the transaction table's
-- release_transaction_manager.
pub record Platform : Type 1 where
  pub D : Doubles
  pub O : Openssl
  pub Request : Type 0
  pub key : Request → ℕ
  pub value : Request → Text
  pub to_string : ℕ → Text
  pub hash256_hex_string : Text → Text
  -- the bytes of the literal 0.68
  pub agreement : D.Double
  pub fuel : ℕ
  pub Database : Type 0
  pub run_txn : TxnManager D.Double Request → Database → Database
  pub release_transaction_manager :
      ℕ → (ℕ → TxnManager D.Double Request) → ℕ → TxnManager D.Double Request

-- what a worker hands to the message queue or to the work queue
pub data Packet (R Request : Type 0) : Type 0 where
  prep_packet commit_packet execute_packet : IndexedMessage R → Packet R Request
  batch_packet : BatchRequests R Request → Packet R Request
  chkpt_packet : CheckpointMessage R → Packet R Request
  response_packet : ClientResponseMessage R → Packet R Request
  ready_packet : Packet R Request
  keyex_packet : KeyExchange R → Packet R Request
  client_packet : ClientQueryBatch R Request → Packet R Request
  view_change_packet : PbftViewChangeMsg R Request → Packet R Request
  new_view_packet : PbftNewViewMsg R Request → Packet R Request

pub record Node (P : Platform) : Type 0 where
  pub g_view : ℕ
  pub g_next_index : ℕ
  pub g_last_stable_chkpt : ℕ
  pub expected_batch_count : ℕ
  pub tot_key : ℕ
  -- g_pub_keys[g_node_id]
  pub pub_key : Text
  pub g_public_key : Text
  pub batch_set : ℕ → ℕ
  pub txn_table : ℕ → TxnManager P.D.Double P.Request
  pub cqry_store : ℕ → YcsbClientQueryMessage P.D.Double P.Request
  pub pre_store : ℕ → PbftPreMessage P.D.Double P.Request
  pub prep_store : ℕ → ℕ → IndexedMessage P.D.Double
  pub comm_store : ℕ → ℕ → IndexedMessage P.D.Double
  pub chkpt_msgs : List (CheckpointMessage P.D.Double)
  pub g_algorand : Algorand P.O
  pub database : P.Database
  pub m_dp : DataPackage
  pub g_dp : DataPackage
  -- messages sent, each with its destination: the latest call first, one broadcast in the order of the nodes
  pub sent : List (ℕ × Packet P.D.Double P.Request)
  -- messages put into the work queue, the last one first
  pub work : List (Packet P.D.Double P.Request)

-- uint64_t a - b
abbrev pub sub_u64 : ℕ → ℕ → ℕ
sub_u64 a b = (a + 2 ^ 64 - b) % 2 ^ 64

abbrev pub uint64_max : ℕ
uint64_max = 2 ^ 64 - 1
