-- ===== src/Transport/Messages.antt =====
-- transport/message.h: the messages of the shipped configuration (config.h: ALGORAND, PBFT, batches,
-- no RBFT or Zyzzyva), and those of view changes (VIEW_CHANGES). The statistics fields of type `double` have a type of their own,
-- and so have the requests of the YCSB benchmark, whose header is not in the repository.
use algorand.Prelude.{ℕ, List, Text}
use algorand.Blockchain.Algorand.{DataPackage}

-- RemReqType of system/global.h, the types that the workers process or send
pub data RemReqType : Type 0 where
  keyex ready cl_qry cl_rsp cl_batch execute_msg pbft_pre_msg batch_req : RemReqType
  pbft_prep_msg pbft_commit_msg pbft_chkpt_msg pbft_view_change pbft_new_view : RemReqType

-- the fields lat_work_queue_time to lat_other_time
pub record Latencies (R : Type 0) : Type 0 where
  pub work_queue : R
  pub msg_queue : R
  pub cc_block : R
  pub cc_time : R
  pub process_time : R
  pub network : R
  pub other : R

pub record Message (R : Type 0) : Type 0 where
  pub rtype : RemReqType
  pub txn_id : ℕ
  pub batch_id : ℕ
  pub return_node_id : ℕ
  pub wq_time : ℕ
  pub mq_time : ℕ
  pub ntwk_time : ℕ
  pub sig_size : ℕ
  pub key_size : ℕ
  pub signature : Text
  pub pub_key : Text
  pub dp : DataPackage
  pub lat : Latencies R

pub record YcsbClientQueryMessage (R Request : Type 0) : Type 0 where
  pub base : Message R
  pub open base use *
  pub client_startts : ℕ
  pub partitions : List ℕ
  pub requests : List Request
  pub return_node : ℕ

pub record ClientQueryBatch (R Request : Type 0) : Type 0 where
  pub base : Message R
  pub open base use *
  pub return_node : ℕ
  pub batch_size : ℕ
  pub cqry_set : List (YcsbClientQueryMessage R Request)

pub record BatchRequests (R Request : Type 0) : Type 0 where
  pub base : Message R
  pub open base use *
  pub view : ℕ
  pub index : List ℕ
  pub hash_size : List ℕ
  pub hash : List Text
  pub request_msg : List (YcsbClientQueryMessage R Request)
  pub batch_size : ℕ

pub record PbftPreMessage (R Request : Type 0) : Type 0 where
  pub base : Message R
  pub open base use *
  pub view : ℕ
  pub index : ℕ
  pub hash : Text
  pub hash_size : ℕ
  pub request_msg : YcsbClientQueryMessage R Request

-- PBFTPrepMessage, PBFTCommitMessage and ExecuteMessage have the same fields
pub record IndexedMessage (R : Type 0) : Type 0 where
  pub base : Message R
  pub open base use *
  pub view : ℕ
  pub index : ℕ
  pub hash : Text
  pub hash_size : ℕ
  pub return_node : ℕ
  pub end_index : ℕ
  pub batch_size : ℕ

pub record CheckpointMessage (R : Type 0) : Type 0 where
  pub base : Message R
  pub open base use *
  pub index : ℕ
  pub return_node : ℕ
  pub beg_index : ℕ

pub record ClientResponseMessage (R : Type 0) : Type 0 where
  pub base : Message R
  pub open base use *
  pub index : List ℕ
  pub client_ts : List ℕ
  pub view : ℕ

pub record KeyExchange (R : Type 0) : Type 0 where
  pub base : Message R
  pub open base use *
  pub pkey : Text
  pub pkey_sz : ℕ
  pub return_node : ℕ

pub record PbftViewChangeMsg (R Request : Type 0) : Type 0 where
  pub base : Message R
  pub open base use *
  -- the view after the next change
  pub view : ℕ
  -- the last stable checkpoint
  pub index : ℕ
  pub num_pre_msgs : ℕ
  pub num_prep_msgs : ℕ
  pub pre_prepare_messages : List (BatchRequests R Request)
  pub check_point_messages : List (CheckpointMessage R)
  pub prepare_messages : List (IndexedMessage R)
  pub return_node : ℕ

pub record PbftNewViewMsg (R Request : Type 0) : Type 0 where
  pub base : Message R
  pub open base use *
  pub view : ℕ
  pub num_view_change_msgs : ℕ
  pub num_pre_msgs : ℕ
  pub view_change_messages : List (PbftViewChangeMsg R Request)
  pub pre_prepare_messages : List (BatchRequests R Request)
