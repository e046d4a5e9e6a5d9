-- ===== src/System/ClientBatch.antt =====
-- The primary makes a batch: system/worker_thread.cpp: process_client_batch; transport/message.cpp:
-- BatchRequests::copy_from_txn and YCSBClientQueryMessage::getString. Without USE_CRYPTO the `validate` of a client's
-- batch accepts it, and `sign` is that of the other messages. `none` is a failed assert or a read past the end of an
-- array.
use algorand.Prelude.{
  update, ℕ, zero, suc, ◌+◌, ◌*◌, ◌%◌, ◌^◌, List, [], ◌∷◌, ◌++◌, map, Option, some, Text, codes,
  length, get_elem?, ◌==◌, if◌then◌else◌,
}
use algorand.Prelude.Fallible.{◌>>=◌, ◌>>◌, assert}
use algorand.Transport.Messages.{
  pbft_pre_msg, batch_req, YcsbClientQueryMessage, ClientQueryBatch, BatchRequests,
}
use algorand.System.Node.{Platform, Config, TxnManager, batch_packet, Node, index_size, sub_u64}
use algorand.System.Send.{create_message, create_from_txn, sign}
use algorand.System.Prepare.{set_txn}

module _ (P : Platform) (c : Config) where
  open P.D use {Double}
  open P use {Request}

  abbrev pub get_request_string : List Request → Text
  get_request_string [] = []
  get_request_string (r ∷ rs) =
      P.to_string (P.key r) ++ (codes " " ++ (P.value r ++ (codes " " ++ get_request_string rs)))

  abbrev pub get_string : YcsbClientQueryMessage Double Request → Text
  get_string q = get_request_string q.requests ++ (codes " " ++ P.to_string q.client_startts)

  abbrev pub digest_of : YcsbClientQueryMessage Double Request → Text
  digest_of q = P.hash256_hex_string (get_string q)

  -- The pre-prepare message of the transaction goes into the log. The source leaves its view unset, which
  -- nothing reads.
  abbrev pub log_request : ℕ → Node P → Node P
  log_request begintxn n =
      let row = begintxn % index_size c in
      let clqry = n.cqry_store row in
      record n {
        pre_store = update n.pre_store row (record {
          base = record (create_message P c pbft_pre_msg) { txn_id = begintxn };
          view = 0;
          index = begintxn;
          hash = digest_of clqry;
          hash_size = length (digest_of clqry);
          request_msg = clqry;
        });
      }

  -- The loop over the transactions from `begintxn` on, `left` of them: the requests and their numbers, and the
  -- node with the pre-prepare messages in the log.
  unfoldable pub fill_batch :
      ℕ → ℕ → Node P → Option (List (YcsbClientQueryMessage Double Request) × List ℕ × Node P)
  fill_batch zero begintxn n = some ([], [], n)
  fill_batch (suc left) begintxn n =
      let clqry = n.cqry_store (begintxn % index_size c) in
      do
        assert (clqry.txn_id == begintxn)
        (requests, index, n') ← fill_batch left ((begintxn + 1) % 2 ^ 64) (log_request begintxn n)
        some (clqry ∷ requests, begintxn ∷ index, n')

  unfoldable pub batch_from_txn :
      TxnManager Double Request → Node P → Option (BatchRequests Double Request × Node P)
  unfolding fill_batch
  batch_from_txn txn n = do
    assert (n.g_view == c.g_node_id)
    (requests, index, n') ← fill_batch c.g_batch_size (n.batch_set (txn.cbatch % index_size c)) n
    let breq : BatchRequests Double Request = record {
      base =
          sign P c n (record (create_from_txn P c batch_req txn) { txn_id = sub_u64 txn.txn_id 2 });
      view = n.g_view;
      index = index;
      hash_size = map (λ q. length (digest_of q)) requests;
      hash = map digest_of requests;
      request_msg = requests;
      batch_size = c.g_batch_size;
    }
    some (breq, n')

  -- a client's request at its number: its transaction manager and its place in the log
  unfoldable pub accept_query : ℕ → ℕ → YcsbClientQueryMessage Double Request → Node P → Node P
  unfolding set_txn
  accept_query return_id txn_id query n =
      let txn = n.txn_table txn_id in
      record (set_txn P c txn_id
        (record txn {
          return_id = return_id;
          client_id = query.return_node;
          client_startts = query.client_startts;
          requests = txn.requests ++ query.requests;
        })
        n) {
          cqry_store =
              update n.cqry_store (txn_id % index_size c)
                (record query { base = record query.base { txn_id = txn_id } });
        }

  -- the loop over the batch but its last request, from the i-th on, `left` of them
  pub accept_queries : ClientQueryBatch Double Request → ℕ → ℕ → Node P → Option (Node P)
  unfolding accept_query
  accept_queries btch zero i n = some n
  accept_queries btch (suc left) i n =
      let txn_id = (c.g_batch_size * btch.txn_id + i) % 2 ^ 64 in
      do
        query ← get_elem? btch.cqry_set i
        let n' = accept_query btch.return_node txn_id query n
        accept_queries btch left (i + 1) (
            if txn_id % c.g_batch_size == 0
            then record n' { batch_set = update n'.batch_set (btch.txn_id % index_size c) txn_id }
            else n')

  -- the request that marks the batch: the batch goes to the work queue
  unfoldable pub order_batch : ℕ → ℕ → Node P → Option (Node P)
  unfolding batch_from_txn set_txn
  order_batch next_set cindex n =
      let txn = record (n.txn_table cindex) { cbatch = next_set } in
      do
        (breq, n') ← batch_from_txn txn (set_txn P c cindex txn n)
        let breq' = record breq { base = record breq.base { dp = n'.m_dp } }
        some (record n' { work = batch_packet breq' ∷ n'.work })

  unfoldable pub process_client_batch : ClientQueryBatch Double Request → Node P → Option (Node P)
  unfolding accept_queries accept_query order_batch
  process_client_batch btch n =
      let last = sub_u64 c.g_batch_size 1 in
      let cindex = (c.g_batch_size * btch.txn_id + last) % 2 ^ 64 in
      do
        query ← get_elem? btch.cqry_set last
        n1 ← accept_queries btch last 0 (record n {
          m_dp = record n.m_dp { value = digest_of query; seed = n.g_algorand.seed };
        })
        let n2 = accept_query btch.return_node cindex query n1
        if (cindex + 1) % 2 ^ 64 % c.g_batch_size == 0
            then order_batch btch.txn_id cindex n2
            else some n2
