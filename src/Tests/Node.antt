-- ===== src/Tests/Node.antt =====
-- The laws of a server node at a concrete one: node 1 of four, in view 0, with transactions 2 and 3 in its log.
use algorand.Prelude.{
  update, ℕ, zero, suc, All, ◌≡◌, ◌≤◌, refl, arith, true, false, ◌&&◌, ◌⊎◌, List, [], ◌∷◌, ◌++◌,
  none, some, codes, text_eq, length, lookup,
}
use algorand.Prelude.Counting.{count}
use algorand.Prelude.Int.{pos, ◌+ℤ◌}
use algorand.Blockchain.Algorand.{DataPackage}
use algorand.Blockchain.Vrf.{vrf_rsa_verify, verify_with}
use algorand.Blockchain.Votes.{count_of}
use algorand.Transport.Messages.{
  Message, YcsbClientQueryMessage, IndexedMessage, CheckpointMessage, ClientResponseMessage,
  pbft_pre_msg, batch_req, BatchRequests,
}
use algorand.System.Node.{TxnManager, Packet, ready_packet, response_packet, Node}
use algorand.System.Send.{
  empty_package, no_latencies, create_message, create_from_txn, sign, broadcast,
}
use algorand.System.Send.Laws.{addressed, broadcast-addressed}
use algorand.System.Votes.{count_prep_vote}
use algorand.System.Votes.Guards.{prep_counts_unverified}
use algorand.System.Prepare.{set_txn, prepared}
use algorand.System.Prepare.Quorum.{speakers, IsLogged, prepared-quorum}
use algorand.System.Commit.{committed_local}
use algorand.System.Commit.Quorum.{confirms, committed_local-quorum, committed_local-overlap}
use algorand.System.Checkpoint.{process_pbft_chkpt_msg, count_same}
use algorand.System.Checkpoint.Log.{
  entries, with_entry, all_recent, process_pbft_chkpt_msg-IsLog, process_pbft_chkpt_msg-stable,
}
use algorand.System.Execute.{process_execute_msg}
use algorand.System.Execute.Order.{IsCheckpoint, process_execute_msg-runs}
use algorand.System.ClientBatch.{digest_of, log_request, batch_from_txn}
use algorand.System.Batch.{check_hashes}
use algorand.System.Batch.Digest.{numbers, batch_from_txn-validates}
use algorand.Tests.Setup.{platform, config, user}

abbrev pub base : ℕ → Message ℕ
base txn_id = record (create_message platform config pbft_pre_msg) { txn_id = txn_id }

abbrev pub query : ℕ → YcsbClientQueryMessage ℕ ℕ
query txn_id = record {
  base = base txn_id;
  client_startts = 7;
  partitions = [];
  requests = 65 ∷ [];
  return_node = 4;
}

abbrev pub indexed : ℕ → ℕ → IndexedMessage ℕ
indexed txn_id node = record {
  base = base txn_id;
  view = 0;
  index = 2;
  hash = codes "h";
  hash_size = 1;
  return_node = node;
  end_index = 3;
  batch_size = 2;
}

abbrev pub txn : ℕ → TxnManager ℕ ℕ
txn txn_id = record {
  txn_id = txn_id;
  return_id = 4;
  client_id = 4;
  client_startts = 7;
  requests = 65 ∷ [];
  prepared = false;
  cbatch = 0;
  prep_rsp_cnt = pos 2;
  commit_rsp_cnt = pos 3;
  committed_local = false;
  lat = no_latencies platform config;
}

-- three nodes have spoken for transaction 3
abbrev row : ℕ → IndexedMessage ℕ
row zero = indexed 0 0
row (suc i) = indexed 3 (suc i)

abbrev pub node : Node platform
node = record {
  g_view = 0;
  g_next_index = 2;
  g_last_stable_chkpt = 0;
  expected_batch_count = 2;
  tot_key = 0;
  pub_key = codes "0";
  g_public_key = codes "PK";
  batch_set = λ i. 2;
  txn_table = txn;
  cqry_store = query;
  pre_store = λ i. record {
    base = base i;
    view = 0;
    index = i;
    hash = codes "h";
    hash_size = 1;
    request_msg = query i;
  };
  prep_store = λ i. row;
  comm_store = λ i. row;
  chkpt_msgs = [];
  g_algorand = user;
  database = [];
  m_dp = empty_package;
  g_dp = empty_package;
  sent = [];
  work = [];
}

-- the same node with transaction 3 prepared
abbrev pub ready : Node platform
ready = record node { txn_table = update txn 3 (record (txn 3) { prepared = true }) }

abbrev committed : Node platform
committed = record ready {
  txn_table = update ready.txn_table 3 (record (txn 3) { prepared = true; committed_local = true });
}

becomes_prepared : prepared platform config 3 node ≡ some (true, ready)
unfolding prepared
becomes_prepared = refl

prepared-quorum_example :
    (b : ℕ) × (e : ℕ) × (2 ≤ speakers platform config node 3 b e 4 0)
    × (1 ≤ speakers platform config node 3 b e 4 0)
    × IsLogged platform config node 3 b e
    × ((ready.txn_table 3).prepared ≡ true)
prepared-quorum_example = prepared-quorum platform config node 3 refl becomes_prepared

commits : committed_local platform config (indexed 3 2) ready ≡ some (true, committed)
unfolding committed_local text_eq set_txn
commits = refl

committed_local-quorum_example :
    (true ≡ true) × (3 ≤ count (confirms platform config (indexed 3 2) ready) 4 0) × (true ≡ true)
committed_local-quorum_example = committed_local-quorum platform config (indexed 3 2) ready commits

other_commits : committed_local platform config (indexed 3 0) ready ≡ some (true, committed)
unfolding committed_local text_eq set_txn
other_commits = refl

committed_local-overlap_example :
    2
    ≤ count
        (λ i.
          confirms platform config (indexed 3 2) ready i
          && confirms platform config (indexed 3 0) ready i)
        4
        0
committed_local-overlap_example =
    committed_local-overlap platform config (indexed 3 2) (indexed 3 0) ready ready refl commits
      other_commits

abbrev pub checkpoint : ℕ → CheckpointMessage ℕ
checkpoint sender = record { base = base 95; index = 95; return_node = sender; beg_index = 0 }

-- one other node has sent the checkpoint
abbrev waiting : Node platform
waiting = record node { chkpt_msgs = checkpoint 2 ∷ [] }

waiting-IsLog : (index beg sender : ℕ) → entries index beg sender waiting.chkpt_msgs ≤ 1
waiting-IsLog index beg sender = ground arith

process_pbft_chkpt_msg-IsLog_example :
    entries 95 0 2 (process_pbft_chkpt_msg platform config (checkpoint 3) waiting).1.chkpt_msgs ≤ 1
process_pbft_chkpt_msg-IsLog_example =
    process_pbft_chkpt_msg-IsLog platform config (checkpoint 3) waiting waiting-IsLog 95 0 2

process_pbft_chkpt_msg-stable_example :
    let (accepted, n') = process_pbft_chkpt_msg platform config (checkpoint 3) waiting in
    ((accepted ≡ true)
      × (2 ≤ count_same (checkpoint 3) (with_entry (checkpoint 3) waiting.chkpt_msgs))
      × (n'.g_last_stable_chkpt ≡ 99)
      × (all_recent 99 n'.chkpt_msgs ≡ true))
    ⊎ ((accepted ≡ false)
        × (n'.g_last_stable_chkpt ≡ 0)
        × ((n'.chkpt_msgs ≡ waiting.chkpt_msgs)
            ⊎ (n'.chkpt_msgs ≡ with_entry (checkpoint 3) waiting.chkpt_msgs)))
process_pbft_chkpt_msg-stable_example =
    process_pbft_chkpt_msg-stable platform config (checkpoint 3) waiting

-- the message to execute the batch of transactions 2 and 3
abbrev pub batch : IndexedMessage ℕ
batch = record (indexed 2 1) { end_index = 2 }

process_execute_msg-runs_example :
    (n' : Node platform) × (process_execute_msg platform config batch node ≡ some n')
    × (n'.g_next_index ≡ 4)
    × (n'.database ≡ 3 ∷ 2 ∷ [])
    × (chk : List (ℕ × Packet ℕ ℕ)) × (crsp : ClientResponseMessage ℕ) × (n'.sent
        ≡ chk ++ (4, response_packet crsp) ∷ [])
    × (crsp.index ≡ 2 ∷ 3 ∷ [])
    × All (IsCheckpoint platform config) chk
process_execute_msg-runs_example =
    process_execute_msg-runs platform config batch node (omega arith) (omega arith) refl

-- the primary, and the batch that it makes
abbrev primary : Node platform
primary = record node { g_view = 1 }

abbrev made_batch : BatchRequests ℕ ℕ
made_batch = record {
  base =
      sign platform config primary
        (record (create_from_txn platform config batch_req (txn 3)) { txn_id = 1 });
  view = 1;
  index = 2 ∷ 3 ∷ [];
  hash_size = 6 ∷ 6 ∷ [];
  hash = digest_of platform config (query 2) ∷ digest_of platform config (query 3) ∷ [];
  request_msg = query 2 ∷ query 3 ∷ [];
  batch_size = 2;
}

makes_batch :
    batch_from_txn platform config (txn 3) primary
    ≡ some (made_batch, log_request platform config 3 (log_request platform config 2 primary))
unfolding batch_from_txn
makes_batch = refl

batch_from_txn-validates_example :
    (made_batch.index ≡ numbers 2 2)
    × (length made_batch.request_msg ≡ 2)
    × (check_hashes platform config made_batch 2 0 ≡ some tt)
batch_from_txn-validates_example =
    batch_from_txn-validates platform config (txn 3) primary makes_batch

broadcast-addressed_example : addressed 2 (broadcast platform config ready_packet node).sent ≡ 1
broadcast-addressed_example = broadcast-addressed platform config ready_packet node 2

-- a vote with a proof that is too short
abbrev forged : DataPackage
forged = record empty_package { proof = []; pk = codes "K9"; value = codes "A"; j = pos 100 }

forged_fails : verify_with platform.O user.seed forged.proof forged.pk user.f_hash ≡ some false
unfolding verify_with vrf_rsa_verify
forged_fails = refl

fresh_key : lookup forged.pk user.countvotes_pk ≡ none
unfolding lookup
fresh_key = refl

prep_counts_unverified_example :
    (n' : Node platform) × (count_prep_vote platform forged node ≡ some n')
    × (count_of forged.value n'.g_algorand.counts ≡ count_of forged.value [] +ℤ pos 100)
prep_counts_unverified_example = prep_counts_unverified platform forged node forged_fails fresh_key
