-- ===== src/Tests/Wire.antt =====
-- Messages of transport/message.cpp through a buffer of bytes.
use algorand.Prelude.{ℕ, ◌+◌, ◌^◌, ◌≡◌, refl, List, [], ◌∷◌, some, true, codes, arith}
use algorand.Transport.Messages.{
  RemReqType, cl_qry, cl_batch, batch_req, pbft_prep_msg, Message, YcsbClientQueryMessage,
  IndexedMessage, ClientQueryBatch, BatchRequests,
}
use algorand.Transport.Wire.{Buffer}
use algorand.Transport.Wire.Header.RoundTrip.{FitsMessage}
use algorand.Transport.Wire.Indexed.RoundTrip.{FitsIndexed}
use algorand.Transport.Wire.Nested.Laws.{FitsNested}
use algorand.Transport.Wire.Batch.RoundTrip.{FitsBatch}
use algorand.Transport.Wire.Requests.{requests_size, requests_to_buf, requests_from_buf}
use algorand.Transport.Wire.Requests.RoundTrip.{
  FitsRequests, requests_copy, requests_to_buf-requests_from_buf,
}
use algorand.Transport.Wire.Dispatch.{
  AnyMessage, client_batch, preparation, is_node, create_messages,
}
use algorand.Transport.Wire.Dispatch.Laws.{FitsAny}
use algorand.Transport.Wire.Dispatch.RoundTrip.{
  packet_to_buf, all_copies, packet_to_buf-create_messages,
}
use algorand.System.Send.{create_message}
use algorand.Tests.Setup.{platform, config}
use algorand.Tests.Layout.{FitsInt, layout, layout_laws}
use algorand.Tests.Node.{base, query, indexed}

abbrev base_of : RemReqType → ℕ → Message ℕ
base_of rtype txn_id = record (base txn_id) { rtype = rtype }

base_fits : (rtype : RemReqType) → FitsMessage FitsInt (base_of rtype 3)
unfolding create_message
base_fits rtype = record {
  txn_id = omega arith;
  mq_time = omega arith;
  sig_small = omega arith;
  key_small = omega arith;
  sig_size = refl;
  key_size = refl;
  dp = record {
    seed = refl;
    hash = refl;
    proof = refl;
    value = refl;
    pk = refl;
    j = omega arith;
    node_id = omega arith;
  };
}

abbrev prep : IndexedMessage ℕ
prep = record (indexed 3 2) { base = base_of pbft_prep_msg 3 }

prep_fits : FitsIndexed FitsInt (2 ^ 32) prep
prep_fits = record {
  base = base_fits pbft_prep_msg;
  view = omega arith;
  index = omega arith;
  hash_small = omega arith;
  hash_size = refl;
  return_node = omega arith;
  end_index = omega arith;
  batch_size = omega arith;
}

-- an empty buffer
abbrev zeros : Buffer
zeros i = 0

abbrev client : YcsbClientQueryMessage ℕ ℕ
client = record (query 3) { base = base_of cl_qry 3 }

client_fits : FitsNested platform FitsInt 100 client
client_fits = record {
  query = record {
    client = record {
      base = base_fits cl_qry;
      client_startts = omega arith;
      few = omega arith;
      partitions = tt;
    };
    few = omega arith;
    keys = (omega arith, tt);
    return_node = omega arith;
  };
  rtype = refl;
}

abbrev queries : ClientQueryBatch ℕ ℕ
queries = record {
  base = base_of cl_batch 3;
  return_node = 4;
  batch_size = 2;
  cqry_set = client ∷ client ∷ [];
}

queries_fit : FitsBatch platform config FitsInt 100 queries
queries_fit = record {
  base = base_fits cl_batch;
  return_node = omega arith;
  batch_size = omega arith;
  length_cqry_set = refl;
  cqry_set = (client_fits, (client_fits, tt));
}

abbrev clock : ℕ → ℕ
clock i = 5 + i

abbrev proposal : BatchRequests ℕ ℕ
proposal = record {
  base = base_of batch_req 3;
  view = 0;
  index = 2 ∷ 3 ∷ [];
  hash_size = 1 ∷ 2 ∷ [];
  hash = codes "h" ∷ codes "hi" ∷ [];
  request_msg = client ∷ client ∷ [];
  batch_size = 2;
}

proposal_fits : FitsRequests platform config FitsInt 100 proposal
proposal_fits = record {
  base = base_fits batch_req;
  view = omega arith;
  length_index = refl;
  length_hash = refl;
  length_request_msg = refl;
  index = (omega arith, (omega arith, tt));
  hash_size = refl;
  hash = (omega arith, (omega arith, tt));
  request_msg = (client_fits, (client_fits, tt));
  batch_size = omega arith;
}

requests_to_buf-requests_from_buf_example :
    (buf' : Buffer) × (requests_to_buf platform config layout 100 clock proposal zeros 0
      ≡ some (buf', 0 + requests_size platform config layout 100 proposal))
    × (requests_from_buf platform config layout 100 (λ i. 9) buf' 0
        ≡ some (
          requests_copy platform config layout FitsInt layout_laws 100 clock (λ i. 9) proposal,
          0 + requests_size platform config layout 100 proposal,
        ))
requests_to_buf-requests_from_buf_example =
    requests_to_buf-requests_from_buf platform config layout FitsInt layout_laws 100 clock (λ i. 9)
      proposal proposal_fits zeros 0

abbrev packet : List (AnyMessage ℕ ℕ)
packet = preparation prep ∷ client_batch queries ∷ []

prep_any : FitsAny platform config layout FitsInt layout_laws 100 (preparation prep)
unfolding FitsAny
prep_any = (prep_fits, refl)

queries_any : FitsAny platform config layout FitsInt layout_laws 100 (client_batch queries)
unfolding FitsAny
queries_any = (queries_fit, refl)

two_is_node : is_node platform config layout 100 2 ≡ true
unfolding is_node
two_is_node = refl

-- a buffer from node 2
packet_to_buf-create_messages_example :
    (buf' : Buffer) × (end : ℕ) × (packet_to_buf platform config layout FitsInt layout_laws 100
        (λ i. clock)
        2
        packet
        zeros
        0
      ≡ some (buf', end))
    × (create_messages platform config layout 100 (λ i. λ k. 9) buf' 0
        ≡ some (
          all_copies platform config layout FitsInt layout_laws 100
              (λ i. clock)
              (λ i. λ k. 9)
              0
              2
              packet,
          end,
        ))
packet_to_buf-create_messages_example =
    packet_to_buf-create_messages platform config layout FitsInt layout_laws 100 (λ i. clock)
      (λ i. λ k. 9) 2 packet (omega arith) (omega arith) (omega arith) (λ e. omega arith)
      two_is_node (prep_any, (queries_any, tt)) zeros 0
