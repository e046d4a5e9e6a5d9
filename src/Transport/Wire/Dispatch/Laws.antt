-- ===== src/Transport/Wire/Dispatch/Laws.antt =====
-- What the virtual functions write and read (transport/message.cpp).
use algorand.Prelude.{ℕ, ◌^◌, ◌≡◌, refl, sym, subst, List, [], ◌++◌, length, arith}
use algorand.Prelude.Int.{ℤ}
use algorand.Transport.Messages.{
  RemReqType, ready, keyex, cl_qry, cl_rsp, cl_batch, execute_msg, pbft_pre_msg, batch_req,
  pbft_prep_msg, pbft_commit_msg, pbft_chkpt_msg,
}
use algorand.Transport.Wire.{Reader, give}
use algorand.Transport.Wire.Laws.{Writes, Reads, give-Reads, skip-Writes}
use algorand.Transport.Wire.Header.{Layout}
use algorand.Transport.Wire.Header.RoundTrip.{
  LayoutLaws, FitsMessage, header_bytes, header_bytes-rtype,
}
use algorand.Transport.Wire.Header.Framed.{
  fresh_copy, place_to_buf-Writes, place_from_buf-Reads, length-framed, framed-rtype,
}
use algorand.Transport.Wire.Keys.RoundTrip.{
  FitsKeyExchange, key_exchange_bytes, key_exchange_bytes-rtype, key_exchange_copy,
  length-key_exchange_bytes, key_exchange_to_buf-Writes, key_exchange_from_buf-Reads,
}
use algorand.Transport.Wire.Query.RoundTrip.{
  FitsYcsb, ycsb_bytes, ycsb_bytes-rtype, ycsb_copy, length-ycsb_bytes, ycsb_to_buf-Writes,
  ycsb_from_buf-Reads,
}
use algorand.Transport.Wire.Response.RoundTrip.{
  FitsResponse, response_bytes, response_bytes-rtype, response_copy, length-response_bytes,
  response_to_buf-Writes, response_from_buf-Reads,
}
use algorand.Transport.Wire.Batch.RoundTrip.{
  FitsBatch, batch_bytes, batch_bytes-rtype, batch_copy, length-batch_bytes, batch_to_buf-Writes,
  batch_from_buf-Reads,
}
use algorand.Transport.Wire.Indexed.RoundTrip.{
  FitsIndexed, indexed_bytes, indexed_bytes-rtype, indexed_copy, length-indexed_bytes,
  indexed_to_buf-Writes, indexed_from_buf-Reads,
}
use algorand.Transport.Wire.Pre.RoundTrip.{
  FitsPre, pre_bytes, pre_bytes-rtype, pre_copy, length-pre_bytes, pre_to_buf-Writes,
  pre_from_buf-Reads,
}
use algorand.Transport.Wire.Requests.RoundTrip.{
  FitsRequests, requests_bytes, requests_bytes-rtype, requests_copy, length-requests_bytes,
  requests_to_buf-Writes, requests_from_buf-Reads,
}
use algorand.Transport.Wire.Checkpoint.RoundTrip.{
  FitsCheckpoint, checkpoint_bytes, checkpoint_bytes-rtype, checkpoint_copy,
  length-checkpoint_bytes, checkpoint_to_buf-Writes, checkpoint_from_buf-Reads,
}
use algorand.Transport.Wire.Nested.{by_type}
use algorand.Transport.Wire.Nested.Laws.{by_type-Reads}
use algorand.Transport.Wire.Dispatch.{
  AnyMessage, key_exchange, client_query, client_response, client_batch, execution, pre_prepare,
  batch_requests, preparation, commitment, checkpoint, ready_server, any_size, any_to_buf, as_any,
  of_class, create_from_buf,
}
use algorand.System.Node.{Platform, Config}

module _ (P : Platform) (c : Config) (W : Layout P) (FitsInt : ℤ → Type 0)
    (L : LayoutLaws P W FitsInt) (g_synth_table_size : ℕ) where
  open P.D use {Double}
  open P use {Request}

  -- the message fits, and has the request type of its class
  unfoldable pub FitsAny : AnyMessage Double Request → Type 0
  FitsAny (key_exchange m) = FitsKeyExchange FitsInt m × (m.rtype ≡ keyex)
  FitsAny (client_query m) = FitsYcsb P FitsInt g_synth_table_size m × (m.rtype ≡ cl_qry)
  FitsAny (client_response m) = FitsResponse FitsInt c m × (m.rtype ≡ cl_rsp)
  FitsAny (client_batch m) = FitsBatch P c FitsInt g_synth_table_size m × (m.rtype ≡ cl_batch)
  FitsAny (execution m) = FitsIndexed FitsInt (2 ^ 64) m × (m.rtype ≡ execute_msg)
  FitsAny (pre_prepare m) = FitsPre P c FitsInt g_synth_table_size m × (m.rtype ≡ pbft_pre_msg)
  FitsAny (batch_requests m) = FitsRequests P c FitsInt g_synth_table_size m × (m.rtype ≡ batch_req)
  FitsAny (preparation m) = FitsIndexed FitsInt (2 ^ 32) m × (m.rtype ≡ pbft_prep_msg)
  FitsAny (commitment m) = FitsIndexed FitsInt (2 ^ 64) m × (m.rtype ≡ pbft_commit_msg)
  FitsAny (checkpoint m) = FitsCheckpoint FitsInt m × (m.rtype ≡ pbft_chkpt_msg)
  FitsAny (ready_server m) = FitsMessage FitsInt m × (m.rtype ≡ ready)

  pub any_bytes : (ℕ → Double) → AnyMessage Double Request → List ℕ
  any_bytes clock (key_exchange m) = key_exchange_bytes P c W FitsInt L (clock 0) m
  any_bytes clock (client_query m) = ycsb_bytes P c W FitsInt L g_synth_table_size (clock 0) m
  any_bytes clock (client_response m) = response_bytes P c W FitsInt L (clock 0) m
  any_bytes clock (client_batch m) = batch_bytes P c W FitsInt L g_synth_table_size clock m
  any_bytes clock (execution m) = indexed_bytes P c W FitsInt L (2 ^ 64) L.u64 (clock 0) m
  any_bytes clock (pre_prepare m) = pre_bytes P c W FitsInt L g_synth_table_size clock m
  any_bytes clock (batch_requests m) = requests_bytes P c W FitsInt L g_synth_table_size clock m
  any_bytes clock (preparation m) = indexed_bytes P c W FitsInt L (2 ^ 32) L.u32 (clock 0) m
  any_bytes clock (commitment m) = indexed_bytes P c W FitsInt L (2 ^ 64) L.u64 (clock 0) m
  any_bytes clock (checkpoint m) = checkpoint_bytes P c W FitsInt L (clock 0) m
  any_bytes clock (ready_server m) = header_bytes P W FitsInt L (clock 0) m ++ []

  -- the message of the copy that was written with `clock` and is read with `clock'`
  pub any_copy : (clock clock' : ℕ → Double) → AnyMessage Double Request → AnyMessage Double Request
  any_copy clock clock' (key_exchange m) =
      key_exchange (key_exchange_copy P c W FitsInt L (clock 0) (clock' 0) m)
  any_copy clock clock' (client_query m) =
      client_query (ycsb_copy P c W FitsInt L g_synth_table_size (clock 0) (clock' 0) m)
  any_copy clock clock' (client_response m) =
      client_response (response_copy P c W FitsInt L (clock 0) (clock' 0) m)
  any_copy clock clock' (client_batch m) =
      client_batch (batch_copy P c W FitsInt L g_synth_table_size clock clock' m)
  any_copy clock clock' (execution m) =
      execution (indexed_copy P c W FitsInt L (2 ^ 64) L.u64 execute_msg (clock 0) (clock' 0) m)
  any_copy clock clock' (pre_prepare m) =
      pre_prepare (pre_copy P c W FitsInt L g_synth_table_size clock clock' m)
  any_copy clock clock' (batch_requests m) =
      batch_requests (requests_copy P c W FitsInt L g_synth_table_size clock clock' m)
  any_copy clock clock' (preparation m) =
      preparation (indexed_copy P c W FitsInt L (2 ^ 32) L.u32 pbft_prep_msg (clock 0) (clock' 0) m)
  any_copy clock clock' (commitment m) =
      commitment
        (indexed_copy P c W FitsInt L (2 ^ 64) L.u64 pbft_commit_msg (clock 0) (clock' 0) m)
  any_copy clock clock' (checkpoint m) =
      checkpoint (checkpoint_copy P c W FitsInt L (clock 0) (clock' 0) m)
  any_copy clock clock' (ready_server m) =
      ready_server (fresh_copy P c W FitsInt L (clock 0) (clock' 0) ready m)

  pub any_to_buf-Writes :
      (clock : ℕ → Double) (m : AnyMessage Double Request)
      → FitsAny m
      → Writes (any_to_buf P c W g_synth_table_size clock m) (any_bytes clock m)
  unfolding any_to_buf any_bytes FitsAny
  any_to_buf-Writes clock (key_exchange m) f =
      key_exchange_to_buf-Writes P c W FitsInt L (clock 0) m f.0
  any_to_buf-Writes clock (client_query m) f =
      ycsb_to_buf-Writes P c W FitsInt L g_synth_table_size (clock 0) m f.0
  any_to_buf-Writes clock (client_response m) f =
      response_to_buf-Writes P c W FitsInt L (clock 0) m f.0
  any_to_buf-Writes clock (client_batch m) f =
      batch_to_buf-Writes P c W FitsInt L g_synth_table_size clock m f.0
  any_to_buf-Writes clock (execution m) f =
      indexed_to_buf-Writes P c W FitsInt L (2 ^ 64) L.u64 (clock 0) m f.0
  any_to_buf-Writes clock (pre_prepare m) f =
      pre_to_buf-Writes P c W FitsInt L g_synth_table_size clock m f.0
  any_to_buf-Writes clock (batch_requests m) f =
      requests_to_buf-Writes P c W FitsInt L g_synth_table_size clock m f.0
  any_to_buf-Writes clock (preparation m) f =
      indexed_to_buf-Writes P c W FitsInt L (2 ^ 32) L.u32 (clock 0) m f.0
  any_to_buf-Writes clock (commitment m) f =
      indexed_to_buf-Writes P c W FitsInt L (2 ^ 64) L.u64 (clock 0) m f.0
  any_to_buf-Writes clock (checkpoint m) f =
      checkpoint_to_buf-Writes P c W FitsInt L (clock 0) m f.0
  any_to_buf-Writes clock (ready_server m) f =
      place_to_buf-Writes P c W FitsInt L (clock 0) m f.0 skip-Writes (omega arith)

  pub length-any_bytes :
      (clock : ℕ → Double) (m : AnyMessage Double Request)
      → FitsAny m
      → length (any_bytes clock m) ≡ any_size P c W g_synth_table_size m
  unfolding any_size any_bytes FitsAny
  length-any_bytes clock (key_exchange m) f =
      length-key_exchange_bytes P c W FitsInt L (clock 0) m f.0
  length-any_bytes clock (client_query m) f =
      length-ycsb_bytes P c W FitsInt L g_synth_table_size (clock 0) m f.0
  length-any_bytes clock (client_response m) f =
      length-response_bytes P c W FitsInt L (clock 0) m f.0
  length-any_bytes clock (client_batch m) f =
      length-batch_bytes P c W FitsInt L g_synth_table_size clock m f.0
  length-any_bytes clock (execution m) f =
      length-indexed_bytes P c W FitsInt L (2 ^ 64) L.u64 (clock 0) m f.0
  length-any_bytes clock (pre_prepare m) f =
      length-pre_bytes P c W FitsInt L g_synth_table_size clock m f.0
  length-any_bytes clock (batch_requests m) f =
      length-requests_bytes P c W FitsInt L g_synth_table_size clock m f.0
  length-any_bytes clock (preparation m) f =
      length-indexed_bytes P c W FitsInt L (2 ^ 32) L.u32 (clock 0) m f.0
  length-any_bytes clock (commitment m) f =
      length-indexed_bytes P c W FitsInt L (2 ^ 64) L.u64 (clock 0) m f.0
  length-any_bytes clock (checkpoint m) f = length-checkpoint_bytes P c W FitsInt L (clock 0) m f.0
  length-any_bytes clock (ready_server m) f =
      length-framed P c W FitsInt L [] (clock 0) m f.0 (omega arith)

  as_any-Reads :
      {A : Type 0} (f : A → AnyMessage Double Request) {r : Reader A} {bs : List ℕ} {a : A}
      → Reads r bs a
      → Reads (as_any P c W g_synth_table_size f r) bs (f a)
  unfolding as_any
  as_any-Reads f h = record { reads = λ buf p e. rw (h.reads buf p e, as_any) refl }

  by_class-Reads :
      (k : RemReqType → Reader (AnyMessage Double Request)) {r tag : RemReqType} {bs : List ℕ}
      {a : AnyMessage Double Request}
      → r ≡ tag
      → (rest : List ℕ) × (bs ≡ W.rtype.to_bytes r ++ rest)
      → Reads (k tag) bs a
      → Reads (by_type P c W k) bs a
  by_class-Reads k {r} {tag} {bs} {a} e starts h =
      by_type-Reads P c W FitsInt L k r starts (subst (λ t. Reads (k t) bs a) (sym e) h)

  pub create_from_buf-Reads :
      (clock clock' : ℕ → Double) (m : AnyMessage Double Request)
      → FitsAny m
      → Reads
          (create_from_buf P c W g_synth_table_size clock')
          (any_bytes clock m)
          (any_copy clock clock' m)
  unfolding create_from_buf of_class any_bytes any_copy any_size FitsAny
  create_from_buf-Reads clock clock' (key_exchange m) f =
      by_class-Reads (of_class P c W g_synth_table_size clock') f.1
        (key_exchange_bytes-rtype P c W FitsInt L (clock 0) m)
        ((as_any-Reads key_exchange
          (key_exchange_from_buf-Reads P c W FitsInt L (clock 0) (clock' 0) m f.0)))
  create_from_buf-Reads clock clock' (client_query m) f =
      by_class-Reads (of_class P c W g_synth_table_size clock') f.1
        (ycsb_bytes-rtype P c W FitsInt L g_synth_table_size (clock 0) m)
        ((as_any-Reads client_query
          (ycsb_from_buf-Reads P c W FitsInt L g_synth_table_size (clock 0) (clock' 0) m f.0)))
  create_from_buf-Reads clock clock' (client_response m) f =
      by_class-Reads (of_class P c W g_synth_table_size clock') f.1
        (response_bytes-rtype P c W FitsInt L (clock 0) m)
        ((as_any-Reads client_response
          (response_from_buf-Reads P c W FitsInt L (clock 0) (clock' 0) m f.0)))
  create_from_buf-Reads clock clock' (client_batch m) f =
      by_class-Reads (of_class P c W g_synth_table_size clock') f.1
        (batch_bytes-rtype P c W FitsInt L g_synth_table_size clock m)
        ((as_any-Reads client_batch
          (batch_from_buf-Reads P c W FitsInt L g_synth_table_size clock clock' m f.0)))
  create_from_buf-Reads clock clock' (execution m) f =
      by_class-Reads (of_class P c W g_synth_table_size clock') f.1
        (indexed_bytes-rtype P c W FitsInt L (2 ^ 64) L.u64 (clock 0) m)
        ((as_any-Reads execution (
          indexed_from_buf-Reads P c W FitsInt L (2 ^ 64) L.u64 execute_msg (clock 0) (clock' 0) m
            f.0)))
  create_from_buf-Reads clock clock' (pre_prepare m) f =
      by_class-Reads (of_class P c W g_synth_table_size clock') f.1
        (pre_bytes-rtype P c W FitsInt L g_synth_table_size clock m)
        ((as_any-Reads pre_prepare
          (pre_from_buf-Reads P c W FitsInt L g_synth_table_size clock clock' m f.0)))
  create_from_buf-Reads clock clock' (batch_requests m) f =
      by_class-Reads (of_class P c W g_synth_table_size clock') f.1
        (requests_bytes-rtype P c W FitsInt L g_synth_table_size clock m)
        ((as_any-Reads batch_requests
          (requests_from_buf-Reads P c W FitsInt L g_synth_table_size clock clock' m f.0)))
  create_from_buf-Reads clock clock' (preparation m) f =
      by_class-Reads (of_class P c W g_synth_table_size clock') f.1
        (indexed_bytes-rtype P c W FitsInt L (2 ^ 32) L.u32 (clock 0) m)
        ((as_any-Reads preparation (
          indexed_from_buf-Reads P c W FitsInt L (2 ^ 32) L.u32 pbft_prep_msg (clock 0) (clock' 0) m
            f.0)))
  create_from_buf-Reads clock clock' (commitment m) f =
      by_class-Reads (of_class P c W g_synth_table_size clock') f.1
        (indexed_bytes-rtype P c W FitsInt L (2 ^ 64) L.u64 (clock 0) m)
        ((as_any-Reads commitment (
          indexed_from_buf-Reads P c W FitsInt L (2 ^ 64) L.u64 pbft_commit_msg (clock 0) (clock' 0)
            m f.0)))
  create_from_buf-Reads clock clock' (checkpoint m) f =
      by_class-Reads (of_class P c W g_synth_table_size clock') f.1
        (checkpoint_bytes-rtype P c W FitsInt L (clock 0) m)
        ((as_any-Reads checkpoint
          (checkpoint_from_buf-Reads P c W FitsInt L (clock 0) (clock' 0) m f.0)))
  create_from_buf-Reads clock clock' (ready_server m) f =
      by_class-Reads (of_class P c W g_synth_table_size clock') f.1
        (framed-rtype P c W FitsInt L m.rtype [] (header_bytes-rtype P W FitsInt L (clock 0) m))
        ((place_from_buf-Reads P c W FitsInt L (λ m. give (ready_server m))
          (any_size P c W g_synth_table_size) (clock 0) (clock' 0) ready m f.0 (give-Reads _)
          (omega arith)))
