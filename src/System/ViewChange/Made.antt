-- ===== src/System/ViewChange/Made.antt =====
-- What a node puts into its view change message (transport/message.cpp: PBFTViewChangeMsg::init).
pub mod Entry
pub mod Entries
pub mod Accepted
use algorand.Prelude.{ℕ, ◌+◌, ◌-◌, ◌*◌, ◌%◌, ◌≡◌, List, ◌++◌, some, arith}
use algorand.Prelude.Fallible.{◌>>=◌, >>=-eq-some}
use algorand.Transport.Messages.{BatchRequests, IndexedMessage, PbftViewChangeMsg}
use algorand.System.Node.{Platform, Config, index_size, g_min_invalid_nodes}
use algorand.System.ViewChange.{ViewNode, take_all, prepared_entries, init_view_change}

module _ (P : Platform) (c : Config) where
  open P.D use {Double}
  open P use {Request}

  -- where the search of the log starts
  abbrev pub start_of : ViewNode P → ℕ
  start_of v = (v.node.g_last_stable_chkpt + 1) % index_size c

  -- its view, and the entries of the log after the checkpoint and then those before it
  pub init_view_change_lem :
      (v : ViewNode P) (m : PbftViewChangeMsg Double Request)
      → init_view_change P c v ≡ some m
      → (m.view ≡ (v.node.g_view + 1) % c.g_node_cnt)
        × (preps : List (IndexedMessage Double)) × (pres : List (BatchRequests Double Request))
        × (preps' : List (IndexedMessage Double)) × (pres' : List (BatchRequests Double Request))
        × (prepared_entries P c v (index_size c - start_of v) (start_of v) ≡ some (preps, pres))
        × (prepared_entries P c v (start_of v) 0 ≡ some (preps', pres'))
        × (m.prepare_messages ≡ preps ++ preps')
        × (m.pre_prepare_messages ≡ pres ++ pres')
  unfolding init_view_change
  init_view_change_lem v m h =
      let (chkpts, e, h1) =
        >>=-eq-some (take_all P c (2 * g_min_invalid_nodes c) v.node.chkpt_msgs) _ h in
      let ((preps, pres), e1, h2) =
        >>=-eq-some (prepared_entries P c v (index_size c - start_of v) (start_of v)) _ h1 in
      let ((preps', pres'), e2, h3) = >>=-eq-some (prepared_entries P c v (start_of v) 0) _ h2 in
      (ground arith, preps, pres, preps', pres', e1, e2, ground arith, ground arith)
