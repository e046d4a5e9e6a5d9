-- ===== src/System/Responses.antt =====
-- transport/message.cpp: ClientResponseMessage::validate, with which a client collects the responses to a batch in
-- clrspStore. `none` is a failed assert or an index past the end of an array.
pub mod Quorum
use algorand.Prelude.{
  ℕ, zero, suc, ◌+◌, ◌*◌, ◌%◌, Bool, true, false, not, List, [], ◌∷◌, Option, none, some, ◌==◌, ltb,
  if◌then◌else◌, update,
}
use algorand.Prelude.Fallible.{◌>>=◌, ◌>>◌, assert}
use algorand.Transport.Messages.{ClientResponseMessage}
use algorand.System.Node.{Platform, Config, index_size, g_min_invalid_nodes, uint64_max}

-- `for (j = 0; j < n; j++) assert(xs[j] == ys[j]);`
unfoldable pub same_entries : ℕ → List ℕ → List ℕ → Option (Unit {0})
same_entries zero xs ys = some tt
same_entries (suc n) [] ys = none
same_entries (suc n) (x ∷ xs) [] = none
same_entries (suc n) (x ∷ xs) (y ∷ ys) = if x == y then same_entries n xs ys else none

module _ (P : Platform) (c : Config) where
  open P.D use {Double}

  -- clrspStore
  abbrev pub Responses : Type 0
  Responses = ℕ → ℕ → ClientResponseMessage Double

  -- the loop over the nodes from i on, `left` of them, with the number k of responses so far
  unfoldable pub count_responses : Responses → ClientResponseMessage Double → ℕ → ℕ → ℕ → Option ℕ
  count_responses clrsp_store m zero i k = some k
  count_responses clrsp_store m (suc left) i k =
      let clrsp = clrsp_store (m.txn_id % index_size c) i in
      let skip = count_responses clrsp_store m left (i + 1) k in
      let next = count_responses clrsp_store m left (i + 1) (k + 1) in
      if clrsp.txn_id == m.txn_id
      then (do
        same_entries c.g_batch_size m.index clrsp.index
        same_entries c.g_batch_size m.client_ts clrsp.client_ts
        next)
      else skip

  -- the loop that resets the entries of the row
  pub reset_row : ℕ → ℕ → (ℕ → ClientResponseMessage Double) → ℕ → ClientResponseMessage Double
  reset_row zero i row = row
  reset_row (suc left) i row =
      reset_row left (i + 1)
        (update row i (record (row i) { base = record (row i).base { txn_id = uint64_max } }))

  -- `validate` checks that the row has the entry
  unfoldable pub collect : ClientResponseMessage Double → Responses → Responses
  collect m clrsp_store =
      let row = m.txn_id % index_size c in
      update clrsp_store row (update (clrsp_store row) m.return_node_id m)

  -- the log when the batch is answered: no entry of its row is for a transaction any more
  abbrev pub accepted_store : ClientResponseMessage Double → Responses → Responses
  accepted_store m clrsp_store =
      let row = m.txn_id % index_size c in
      update (collect m clrsp_store) row (reset_row c.g_node_cnt 0 (collect m clrsp_store row))

  unfoldable pub validate : ClientResponseMessage Double → Responses → Option (Bool × Responses)
  unfolding count_responses reset_row collect
  validate m clrsp_store = do
    k ← count_responses clrsp_store m c.g_node_cnt 0 0
    assert (ltb m.return_node_id c.g_node_cnt)
    some (
        if ltb (k + 1) (2 * g_min_invalid_nodes c + 1)
        then (false, collect m clrsp_store)
        else (true, accepted_store m clrsp_store))
