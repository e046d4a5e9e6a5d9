-- ===== src/System/ViewChange.antt =====
-- Changes of the view, with VIEW_CHANGES: what a node keeps for them (system/global.cpp and transport/message.cpp), and
-- PBFTViewChangeMsg::init, validate and addAndValidate (transport/message.cpp). Without USE_CRYPTO `validate` of the
-- checkpoint and prepare messages accepts them. `none` is a failed assert or an index past the end of an array.
pub mod NewView
pub mod Handlers
pub mod Stores
pub mod Evidence
pub mod Made
use algorand.Prelude.{
  update, ℕ, zero, suc, ◌+◌, ◌-◌, ◌*◌, ◌%◌, ◌≡◌, Bool, true, false, ◌&&◌, not, List, [], ◌∷◌, ◌++◌,
  Option, none, some, text_eq, get_elem?, length, ◌==◌, ltb, leb, if◌then◌else◌,
}
use algorand.Prelude.Fallible.{◌>>=◌, ◌>>◌, assert}
use algorand.Transport.Messages.{
  pbft_view_change, BatchRequests, ClientQueryBatch, CheckpointMessage, IndexedMessage,
  PbftViewChangeMsg,
}
use algorand.System.Node.{
  Platform, Config, Packet, Node, index_size, g_min_invalid_nodes, sub_u64, uint64_max,
}
use algorand.System.Send.{create_message, sign}
use algorand.System.Batch.{check_hashes}

pub record ViewNode (P : Platform) : Type 0 where
  pub node : Node P
  pub breq_store : ℕ → BatchRequests P.D.Double P.Request
  pub g_pbft_view_change_msgs : List (PbftViewChangeMsg P.D.Double P.Request)
  -- messages of another view
  pub g_msg_wait : List (Packet P.D.Double P.Request)
  pub g_changing_view : Bool
  -- the first reCount entries, the last one first
  pub g_redirected_requests : List (ClientQueryBatch P.D.Double P.Request)
  pub local_view : ℕ → ℕ
  pub input_view : Bool
  pub btsend_view : Bool
  pub ctbtch_view : ℕ → Bool
  pub next_set_id : ℕ

module _ (P : Platform) (c : Config) where
  open P.D use {Double}
  open P use {Request}

  -- the number of the last request of a batch
  abbrev pub last : ℕ
  last = sub_u64 c.g_batch_size 1

  -- `for (i = 0; i < 2 * g_min_invalid_nodes; i++) { assert(i < msgs.size()); push_back(msgs[i]); }`
  unfoldable pub take_all : {A : Type 0} → ℕ → List A → Option (List A)
  take_all zero xs = some []
  take_all (suc n) [] = none
  take_all (suc n) (x ∷ xs) = do ys ← take_all n xs; some (x ∷ ys)

  -- the loop over a row of prepPStore that counts, from the node j on, `left` of them
  pub count_prepares : Node P → BatchRequests Double Request → ℕ → ℕ → ℕ → ℕ → Option ℕ
  count_prepares n breq idx zero j cnt = some cnt
  count_prepares n breq idx (suc left) j cnt =
      let m = n.prep_store (idx % index_size c) j in
      let skip = count_prepares n breq idx left (j + 1) cnt in
      let next = count_prepares n breq idx left (j + 1) (cnt + 1) in
      if m.end_index == idx
      then (do
        h ← get_elem? breq.hash last
        assert (breq.view == m.view)
        assert (text_eq h m.hash)
        next)
      else skip

  -- the loop over the same row that adds
  pub found_prepares : Node P → ℕ → ℕ → ℕ → List (IndexedMessage Double)
  found_prepares n idx zero j = []
  found_prepares n idx (suc left) j =
      let m = n.prep_store (idx % index_size c) j in
      let rest = found_prepares n idx left (j + 1) in if m.end_index == idx then m ∷ rest else rest

  -- what one entry of breqStore adds
  pub prepared_entry :
      ViewNode P
      → BatchRequests Double Request
      → Option (List (IndexedMessage Double) × List (BatchRequests Double Request))
  unfolding count_prepares found_prepares
  prepared_entry v breq = do
    idx ← get_elem? breq.index last
    if ltb v.node.g_last_stable_chkpt idx && ltb idx uint64_max
        then (do
          cnt ← count_prepares v.node breq idx c.g_node_cnt 0 0
          some (
              if leb (2 * g_min_invalid_nodes c) cnt
              then (found_prepares v.node idx c.g_node_cnt 0, breq ∷ [])
              else ([], [])))
        else some ([], [])

  -- the loop over breqStore, from the entry i on, `left` of them
  pub prepared_entries :
      ViewNode P
      → ℕ
      → ℕ
      → Option (List (IndexedMessage Double) × List (BatchRequests Double Request))
  unfolding prepared_entry
  prepared_entries v zero i = some ([], [])
  prepared_entries v (suc left) i = do
    (preps, pres) ← prepared_entry v (v.breq_store i)
    (preps', pres') ← prepared_entries v left (i + 1)
    some (preps ++ preps', pres ++ pres')

  -- PBFTViewChangeMsg::init of a new message; the loop starts after the last stable checkpoint
  unfoldable pub init_view_change : ViewNode P → Option (PbftViewChangeMsg Double Request)
  unfolding take_all prepared_entries
  init_view_change v =
      let n = v.node in
      let start = (n.g_last_stable_chkpt + 1) % index_size c in
      do
        chkpts ← take_all (2 * g_min_invalid_nodes c) n.chkpt_msgs
        (preps, pres) ← prepared_entries v (index_size c - start) start
        (preps', pres') ← prepared_entries v start 0
        some (record {
          base = sign P c n (create_message P c pbft_view_change);
          view = (n.g_view + 1) % c.g_node_cnt;
          index = n.g_last_stable_chkpt;
          num_pre_msgs = length (pres ++ pres');
          num_prep_msgs = length (preps ++ preps');
          pre_prepare_messages = pres ++ pres';
          check_point_messages = chkpts;
          prepare_messages = preps ++ preps';
          return_node = c.g_node_id;
        })

  -- the loop of `validate` over the prepare messages for one batch: the nodes that sent one so far, and their number
  pub count_matching :
      BatchRequests Double Request → List (IndexedMessage Double) → (ℕ → Bool) → ℕ → Option ℕ
  count_matching breq [] received k = some k
  count_matching breq (m ∷ ms) received k =
      let skip = count_matching breq ms received k in
      let next = count_matching breq ms (update received m.return_node true) (k + 1) in
      do
        first ← get_elem? breq.index 0
        if first == m.index
            then (do
              end ← get_elem? breq.index last
              h ← get_elem? breq.hash last
              assert (end == m.end_index)
              assert (breq.view == m.view)
              assert (text_eq h m.hash)
              assert (ltb m.return_node c.g_node_cnt && not (received m.return_node))
              next)
            else skip

  pub validate_batches :
      List (BatchRequests Double Request) → List (IndexedMessage Double) → Option (Unit {0})
  unfolding count_matching
  validate_batches [] ms = some tt
  validate_batches (breq ∷ breqs) ms = do
    check_hashes P c breq c.g_batch_size 0
    k ← count_matching breq ms (λ _. false) 0
    assert (leb (2 * g_min_invalid_nodes c) k)
    validate_batches breqs ms

  -- PBFTViewChangeMsg::validate, which returns true where no assert fails
  unfoldable pub validate_view_change : PbftViewChangeMsg Double Request → Option (Unit {0})
  unfolding validate_batches
  validate_view_change m = validate_batches m.pre_prepare_messages m.prepare_messages

  -- the loop of addAndValidate over the log
  pub check_logged :
      PbftViewChangeMsg Double Request → List (PbftViewChangeMsg Double Request) → Option (Unit {0})
  check_logged m [] = some tt
  check_logged m (s ∷ ss) = do
    assert (not (m.return_node == s.return_node))
    assert (m.index == s.index)
    assert (m.view == s.view)
    check_logged m ss

  unfoldable pub add_view_change :
      PbftViewChangeMsg Double Request → ViewNode P → Option (Bool × ViewNode P)
  unfolding validate_view_change check_logged
  add_view_change m v =
      let log = v.g_pbft_view_change_msgs in
      do
        validate_view_change m
        check_logged m log
        some (
          not (ltb (length log + 1) (2 * g_min_invalid_nodes c)),
          record v { g_pbft_view_change_msgs = log ++ m ∷ [] },
        )
