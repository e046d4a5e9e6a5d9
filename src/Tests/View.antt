-- ===== src/Tests/View.antt =====
-- Changes of the view at concrete nodes: four nodes in view 0, with the batch of transactions 2 and 3 prepared at node 1.
use algorand.Prelude.{
  update, ℕ, ◌≤◌, ◌<◌, ◌≡◌, ◌≢◌, ◌⊎◌, refl, arith, false, Bool-cases, inl, inr, ==_iff, ◌==◌, [],
  ◌∷◌, none, some, subst, sym, ◌∙◌, text_eq, length, get_elem?, Text,
}
use algorand.System.Send.{sign, create_message}
use algorand.Transport.Messages.{pbft_view_change, IndexedMessage, BatchRequests, PbftViewChangeMsg}
use algorand.System.Node.{Config, uint64_max}
use algorand.System.ClientBatch.{digest_of, batch_from_txn}
use algorand.System.Batch.{check_hashes}
use algorand.System.Prepare.{prepared}
use algorand.System.ViewChange.{ViewNode, init_view_change, validate_view_change}
use algorand.System.ViewChange.Evidence.{IsProven, validate_view_change-IsProven}
use algorand.System.ViewChange.Handlers.{Blank, reset, become_primary, process_pbft_view_change_msg}
use algorand.System.ViewChange.Handlers.Log.{
  IsViewLog, next_view, process_pbft_view_change_msg-cases, init_view_change-ignored,
}
use algorand.System.ViewChange.Handlers.Reset.{IsFresh, reset-forgets}
use algorand.System.ViewChange.Made.Entry.{InUse, IsSound, other}
use algorand.System.ViewChange.Made.Accepted.{init_view_change-accepted}
use algorand.Tests.Setup.{platform, config}
use algorand.Tests.Node.{base, query, indexed, node, checkpoint}

abbrev digest : ℕ → Text
digest txn_id = digest_of platform config (query txn_id)

abbrev batch : BatchRequests ℕ ℕ
batch = record {
  base = base 1;
  view = 0;
  index = 2 ∷ 3 ∷ [];
  hash_size = length (digest 2) ∷ length (digest 3) ∷ [];
  hash = digest 2 ∷ digest 3 ∷ [];
  request_msg = query 2 ∷ query 3 ∷ [];
  batch_size = 2;
}

abbrev vote : ℕ → IndexedMessage ℕ
vote sender = record (indexed 3 sender) { hash = digest 3; hash_size = length (digest 3) }

-- an entry of the log that is not in use
abbrev unused : BatchRequests ℕ ℕ
unused = record batch { index = uint64_max ∷ uint64_max ∷ [] }

abbrev backup : ViewNode platform
backup = record {
  node = record node { prep_store = λ i. vote; chkpt_msgs = checkpoint 2 ∷ checkpoint 3 ∷ [] };
  breq_store = update (λ i. unused) 3 batch;
  g_pbft_view_change_msgs = [];
  g_msg_wait = [];
  g_changing_view = false;
  g_redirected_requests = [];
  local_view = λ i. 0;
  input_view = false;
  btsend_view = false;
  ctbtch_view = λ i. false;
  next_set_id = 0;
}

-- the configuration of a node
abbrev of_node : ℕ → Config
of_node id = record config { g_node_id = id }

abbrev asked : ℕ → PbftViewChangeMsg ℕ ℕ
asked sender = record {
  base =
      sign platform (of_node sender) backup.node
        (create_message platform (of_node sender) pbft_view_change);
  view = 1;
  index = 0;
  num_pre_msgs = 1;
  num_prep_msgs = 4;
  pre_prepare_messages = batch ∷ [];
  check_point_messages = checkpoint 2 ∷ checkpoint 3 ∷ [];
  prepare_messages = vote 0 ∷ vote 1 ∷ vote 2 ∷ vote 3 ∷ [];
  return_node = sender;
}

asks : init_view_change platform (of_node 2) backup ≡ some (asked 2)
unfolding init_view_change text_eq
asks = refl

used_only : (s idx : ℕ) → InUse platform (of_node 2) backup s idx → (s ≡ 3) × (idx ≡ 3)
used_only s idx u = elim (Bool-cases (3 == s)) [
  | inl here ↦ (ground (arith, ==_iff 3 s), ground arith)
  | inr there ↦ ground arith
]

first_number :
    (s idx : ℕ)
    → InUse platform (of_node 2) backup s idx
    → get_elem? (backup.breq_store s).index 0 ≡ some 2
first_number s idx u =
    subst (λ k. get_elem? (backup.breq_store k).index 0 ≡ some 2) (sym (used_only s idx u).0) refl

good_hashes : check_hashes platform (of_node 2) batch 2 0 ≡ some tt
unfolding check_hashes text_eq
good_hashes = refl

backup-IsSound : IsSound platform (of_node 2) backup
backup-IsSound = record {
  hashes = λ s idx small u.
      subst (λ k. check_hashes platform (of_node 2) (backup.breq_store k) 2 0 ≡ some tt)
        (sym (used_only s idx u).0) good_hashes;
  numbered = λ s idx small u. (2, first_number s idx u);
  apart = λ s s' idx idx' first small small' u u' e e'.
      (used_only s idx u).0 ∙ sym (used_only s' idx' u').0;
  sender = λ s idx j small u inside e. (refl, first_number s idx u);
}

init_view_change-accepted_example :
    validate_view_change platform (other platform (of_node 2) 3) (asked 2) ≡ some tt
init_view_change-accepted_example =
    init_view_change-accepted platform (of_node 2) 3 backup-IsSound (asked 2) (omega arith) asks

accepts : validate_view_change platform (of_node 3) (asked 2) ≡ some tt
unfolding validate_view_change text_eq check_hashes
accepts = refl

validate_view_change-IsProven_example :
    IsProven platform (of_node 3) (asked 2).prepare_messages batch × Unit {0}
validate_view_change-IsProven_example =
    validate_view_change-IsProven platform (of_node 3) (asked 2) accepts

abbrev blank : Blank platform
blank = record { pre = node.pre_store 0; prep = vote 0; comm = vote 0; breq = unused }

reset-forgets_example :
    let n = (reset platform config blank 0 1 backup).node in
    IsFresh platform config blank 0 1 (n.txn_table 3)
    × (prepared platform config 3 n ≡ some (false, n))
    × ((n.pre_store 5).txn_id ≡ uint64_max)
    × ((n.prep_store 5 2).txn_id ≡ uint64_max)
    × ((n.comm_store 5 2).txn_id ≡ uint64_max)
    × (n.cqry_store ≡ backup.node.cqry_store)
reset-forgets_example =
    reset-forgets platform config blank 0 1 backup 3 3 5 2 (omega arith) (omega arith) refl
      (omega arith) (omega arith)

-- the last of the four views
abbrev at_last : ViewNode platform
at_last = record backup { node = record backup.node { g_view = 3 } }

abbrev asked_last : PbftViewChangeMsg ℕ ℕ
asked_last = record (asked 2) { view = 0 }

asks_last : init_view_change platform (of_node 2) at_last ≡ some asked_last
unfolding init_view_change text_eq sign
asks_last = refl

init_view_change-ignored_example :
    process_pbft_view_change_msg platform (of_node 1) blank 0 1 asked_last at_last ≡ some at_last
init_view_change-ignored_example =
    init_view_change-ignored platform (of_node 1) blank 0 1 (of_node 2) at_last at_last asked_last
      asks_last refl refl

-- the next primary has a message of node 2 and gets one of node 3
abbrev asked_once : ViewNode platform
asked_once = record backup { g_pbft_view_change_msgs = asked 2 ∷ [] }

abbrev changed : ViewNode platform
changed =
    elim (become_primary platform (of_node 1) blank 0 1
      (record asked_once { g_pbft_view_change_msgs = asked 2 ∷ asked 3 ∷ [] })) [
        | none ↦ backup
        | some v ↦ v
      ]

changes :
    process_pbft_view_change_msg platform (of_node 1) blank 0 1 (asked 3) asked_once ≡ some changed
unfolding process_pbft_view_change_msg become_primary text_eq check_hashes batch_from_txn
changes = refl

process_pbft_view_change_msg-cases_example :
    (((of_node 1).g_node_id ≡ asked_once.node.g_view ⊎ (asked 3).view ≤ asked_once.node.g_view)
      × (changed ≡ asked_once))
    ⊎ (((asked 3).view ≡ next_view platform (of_node 1) blank 0 1 asked_once)
        × (validate_view_change platform (of_node 1) (asked 3) ≡ some tt)
        × IsViewLog (asked 2 ∷ asked 3 ∷ [])
        × (((changed ≡ record asked_once { g_pbft_view_change_msgs = asked 2 ∷ asked 3 ∷ [] })
              × ((2 < 2) ⊎ (◌≢◌ {A = ℕ} 1 1)))
            ⊎ ((become_primary platform
                    (of_node 1)
                    blank
                    0
                    1
                    (record asked_once { g_pbft_view_change_msgs = asked 2 ∷ asked 3 ∷ [] })
                  ≡ some changed)
                × (2 ≤ 2)
                × (◌≡◌ {A = ℕ} 1 1)
                × (changed.g_pbft_view_change_msgs ≡ [])
                × (changed.g_redirected_requests ≡ [])
                × (changed.g_changing_view ≡ false))))
process_pbft_view_change_msg-cases_example =
    process_pbft_view_change_msg-cases platform (of_node 1) blank 0 1 (asked 3) asked_once changed
      (tt, tt) changes
