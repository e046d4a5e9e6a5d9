-- ===== src/System/ViewChange/NewView.antt =====
-- transport/message.cpp: PBFTNewViewMsg::init and validate. `unsigned int` has 32 bits. `none` is a failed assert or an
-- index past the end of an array.
use algorand.Prelude.{
  update, ℕ, ◌+◌, ◌-◌, ◌*◌, ◌/◌, ◌%◌, ◌^◌, Bool, true, false, ◌||◌, not, List, [], ◌∷◌, Option,
  none, some, Text, text_eq, get_elem?, set, replicate, length, ◌==◌, ltb, leb, if◌then◌else◌,
}
use algorand.Prelude.Fallible.{◌>>=◌, ◌>>◌, assert}
use algorand.Transport.Messages.{
  pbft_new_view, BatchRequests, IndexedMessage, PbftViewChangeMsg, PbftNewViewMsg,
}
use algorand.System.Node.{Platform, Config, index_size}
use algorand.System.Send.{create_message, sign}
use algorand.System.Prepare.{set_txn}
use algorand.System.ClientBatch.{batch_from_txn}
use algorand.System.Batch.{check_hashes}
use algorand.System.ViewChange.{ViewNode, last, validate_view_change}

-- one place of the new view: `messageFound`, `viewNumbers` and the batch
pub record Place (A : Type 0) : Type 0 where
  pub found : Bool
  pub view_number : ℕ
  pub batch : A

module _ (P : Platform) (c : Config) where
  open P.D use {Double}
  open P use {Request}

  abbrev Batch : Type 0
  Batch = BatchRequests Double Request

  abbrev ViewChange : Type 0
  ViewChange = PbftViewChangeMsg Double Request

  -- the loop over the batches of one view change message: max_s and batchSet
  pub scan_batches : List Batch → ℕ → (ℕ → ℕ) → Option (ℕ × (ℕ → ℕ))
  scan_batches [] max_s batch_set = some (max_s, batch_set)
  scan_batches (b ∷ bs) max_s batch_set = do
    end ← get_elem? b.index (last P c)
    first ← get_elem? b.index 0
    scan_batches bs (if ltb max_s end then end % 2 ^ 32 else max_s)
        (update batch_set (first / c.g_batch_size % index_size c) first)

  -- the loop over the messages: min_s, max_s and batchSet
  pub scan_messages : List ViewChange → ℕ → ℕ → (ℕ → ℕ) → Option (ℕ × ℕ × (ℕ → ℕ))
  unfolding scan_batches
  scan_messages [] min_s max_s batch_set = some (min_s, max_s, batch_set)
  scan_messages (m ∷ ms) min_s max_s batch_set = do
    (max_s', batch_set') ← scan_batches m.pre_prepare_messages max_s batch_set
    scan_messages ms (if ltb min_s m.index then m.index % 2 ^ 32 else min_s) max_s' batch_set'

  -- `uint pos = (index[0] / g_batch_size) - (min_s / g_batch_size) - 1`
  unfoldable pub place_of : ℕ → ℕ → ℕ
  place_of first min_s =
      (first / c.g_batch_size % 2 ^ 32 + 2 * 2 ^ 32 - min_s / c.g_batch_size - 1) % 2 ^ 32

  -- the loop over the batches of one message that makes the batches of the new view
  pub remake_batches :
      List Batch
      → ℕ
      → List (Place (Option Batch))
      → ViewNode P
      → Option (List (Place (Option Batch)) × ViewNode P)
  unfolding set_txn place_of
  remake_batches [] min_s places v = some (places, v)
  remake_batches (b ∷ bs) min_s places v = do
    first ← get_elem? b.index 0
    place ← get_elem? places (place_of first min_s)
    (places', v') ←
        (if not place.found || ltb place.view_number b.view
          then (do
            let id = (b.txn_id + 2) % 2 ^ 64
            let txn = record (v.node.txn_table id) { cbatch = v.next_set_id }
            (breq, n') ← batch_from_txn P c txn (set_txn P c id txn v.node)
            some (
              set places (place_of first min_s)
                  (record { found = true; view_number = b.view % 2 ^ 32; batch = some breq }),
              record v { node = n'; next_set_id = (v.next_set_id + 1) % 2 ^ 64 },
            ))
          else some (places, v))
    remake_batches bs min_s places' v'

  pub remake_all :
      List ViewChange
      → ℕ
      → List (Place (Option Batch))
      → ViewNode P
      → Option (List (Place (Option Batch)) × ViewNode P)
  unfolding remake_batches
  remake_all [] min_s places v = some (places, v)
  remake_all (m ∷ ms) min_s places v = do
    (places', v') ← remake_batches m.pre_prepare_messages min_s places v
    remake_all ms min_s places' v'

  -- every place has to have a batch
  pub all_found : List (Place (Option Batch)) → Option (List Batch)
  all_found [] = some []
  all_found (p ∷ ps) = do b ← p.batch; bs ← all_found ps; some (b ∷ bs)

  abbrev pub empty_places : {A : Type 0} → A → ℕ → ℕ → List (Place A)
  empty_places a min_s max_s =
      replicate ((max_s - min_s) / c.g_batch_size)
        (record { found = false; view_number = 0; batch = a })

  pub same_checkpoints : ℕ → List ViewChange → Option (Unit {0})
  same_checkpoints stable [] = some tt
  same_checkpoints stable (m ∷ ms) = do assert (stable == m.index); same_checkpoints stable ms

  -- PBFTNewViewMsg::init of a new message
  unfoldable pub init_new_view : ViewNode P → Option (PbftNewViewMsg Double Request × ViewNode P)
  unfolding scan_messages remake_all all_found same_checkpoints
  init_new_view v =
      let msgs = v.g_pbft_view_change_msgs in
      let stable = v.node.g_last_stable_chkpt in
      do
        same_checkpoints stable msgs
        first ← get_elem? msgs 0
        (min_s, max_s, batch_set) ← scan_messages msgs (first.index % 2 ^ 32) 0 v.node.batch_set
        let v1 = record v {
          node = record v.node { batch_set = batch_set };
          next_set_id = (first.index + 1) % 2 ^ 64 / c.g_batch_size;
        }
        assert (leb min_s stable)
        (pres, v2) ←
            (if leb min_s max_s
              then (do
                (places, v2) ← remake_all msgs min_s (empty_places none min_s max_s) v1
                pres ← all_found places
                some (pres, v2))
              else some ([], v1))
        some (
          record {
            base = sign P c v2.node (create_message P c pbft_new_view);
            view = c.g_node_id;
            num_view_change_msgs = length msgs;
            num_pre_msgs = length pres;
            view_change_messages = msgs;
            pre_prepare_messages = pres;
          },
          v2,
        )

  pub validate_changes : ℕ → List ViewChange → Option (Unit {0})
  unfolding validate_view_change
  validate_changes view [] = some tt
  validate_changes view (m ∷ ms) = do
    validate_view_change P c m
    assert (m.view == view)
    validate_changes view ms

  pub validate_pres : List Batch → Option (Unit {0})
  validate_pres [] = some tt
  validate_pres (b ∷ bs) = do check_hashes P c b c.g_batch_size 0; validate_pres bs

  pub max_prepared : List (IndexedMessage Double) → ℕ → ℕ
  max_prepared [] max_s = max_s
  max_prepared (m ∷ ms) max_s =
      max_prepared ms (if ltb max_s m.end_index then m.end_index % 2 ^ 32 else max_s)

  pub scan_prepared : List ViewChange → ℕ → ℕ → ℕ × ℕ
  unfolding max_prepared
  scan_prepared [] min_s max_s = (min_s, max_s)
  scan_prepared (m ∷ ms) min_s max_s =
      scan_prepared ms (if ltb m.index min_s then m.index % 2 ^ 32 else min_s)
        (max_prepared m.prepare_messages max_s)

  -- `hash[i] = h`, on the hashes of a batch
  unfoldable pub write_hash : List Text → ℕ → Text → Option (List Text)
  write_hash hs i h = if ltb i (length hs) then some (set hs i h) else none

  -- the loop over the batches of one message that computes what to compare with: here a batch is only its hashes
  pub compare_batches :
      List Batch → ℕ → List (Place (List Text)) → Option (List (Place (List Text)))
  unfolding place_of write_hash
  compare_batches [] min_s places = some places
  compare_batches (b ∷ bs) min_s places = do
    first ← get_elem? b.index 0
    place ← get_elem? places (place_of first min_s)
    places' ←
        (if not place.found || leb place.view_number b.view
          then (do
            h ← get_elem? b.hash (last P c)
            hs ← write_hash place.batch (last P c) h
            some (
                set places (place_of first min_s)
                  (record { found = true; view_number = b.view % 2 ^ 32; batch = hs })))
          else some places)
    compare_batches bs min_s places'

  pub compare_all :
      List ViewChange → ℕ → List (Place (List Text)) → Option (List (Place (List Text)))
  unfolding compare_batches
  compare_all [] min_s places = some places
  compare_all (m ∷ ms) min_s places = do
    places' ← compare_batches m.pre_prepare_messages min_s places
    compare_all ms min_s places'

  pub same_hashes : List Batch → List (Place (List Text)) → Option (Unit {0})
  same_hashes [] places = some tt
  same_hashes (b ∷ bs) [] = none
  same_hashes (b ∷ bs) (p ∷ ps) = do
    h ← get_elem? b.hash (last P c)
    h' ← get_elem? p.batch (last P c)
    assert (text_eq h h')
    same_hashes bs ps

  -- PBFTNewViewMsg::validate, which returns true where no assert fails. BatchRequests() has no hashes.
  unfoldable pub validate_new_view : PbftNewViewMsg Double Request → Option (Unit {0})
  unfolding validate_changes validate_pres scan_prepared compare_all same_hashes
  validate_new_view m = do
    validate_changes m.view m.view_change_messages
    validate_pres m.pre_prepare_messages
    first ← get_elem? m.view_change_messages 0
    let (min_s, max_s) = scan_prepared m.view_change_messages (first.index % 2 ^ 32) 0
    if leb min_s max_s
        then (do
          let places = empty_places [] min_s max_s
          assert (length places == length m.pre_prepare_messages)
          places' ← compare_all m.view_change_messages min_s places
          same_hashes m.pre_prepare_messages places')
        else some tt
