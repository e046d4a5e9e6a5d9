-- ===== src/System/ViewChange/Handlers/Log.antt =====
-- When a node moves to a new view (system/worker_thread.cpp: process_pbft_view_change_msg), and when it never does.
use algorand.Prelude.{
  All, ℕ, ◌+◌, ◌*◌, ◌%◌, ◌≤◌, ◌<◌, ◌≡◌, ◌≢◌, ◌⊎◌, Bool, true, false, ◌||◌, not, List, [], ◌∷◌, ◌++◌,
  Option, some, length, ◌==◌, ==_iff, ltb, leb, arith, ltb→lt, ge_of_not_ltb, Bool-cases, inl, inr,
  subst, ◌∙◌,
}
use algorand.Prelude.Fallible.{◌>>=◌, >>=-eq-some, assert}
use algorand.Transport.Messages.{PbftViewChangeMsg}
use algorand.System.Send.{broadcast}
use algorand.System.ViewChange.NewView.{init_new_view}
use algorand.System.Node.{Platform, Config, new_view_packet, g_min_invalid_nodes}
use algorand.System.ViewChange.{
  ViewNode, init_view_change, validate_view_change, check_logged, add_view_change,
}
use algorand.System.ViewChange.Made.{init_view_change_lem}
use algorand.System.ViewChange.Handlers.{
  Blank, enter_view, reset, log_new_batches, requeue, become_primary, after_logging,
  process_pbft_view_change_msg,
}

mod_self : (n : ℕ) → n % n ≡ 0
mod_self n = grind arith

module _ {R Request : Type 0} where
  -- of different nodes, for the same view and checkpoint
  abbrev pub Alike : PbftViewChangeMsg R Request → PbftViewChangeMsg R Request → Type 0
  Alike m s = (m.return_node ≢ s.return_node) × (m.index ≡ s.index) × (m.view ≡ s.view)

  -- all the messages are
  abbrev pub IsViewLog : List (PbftViewChangeMsg R Request) → Type 0
  IsViewLog [] = Unit
  IsViewLog (s ∷ ss) = All (λ m. Alike m s) ss × IsViewLog ss

  All-snoc :
      (s m : PbftViewChangeMsg R Request) (ss : List (PbftViewChangeMsg R Request))
      → All (λ m. Alike m s) ss
      → Alike m s
      → All (λ m. Alike m s) (ss ++ m ∷ [])
  All-snoc s m [] a h = (h, tt)
  All-snoc s m (x ∷ xs) a h = (a.0, All-snoc s m xs a.1 h)

  IsViewLog-snoc :
      (m : PbftViewChangeMsg R Request) (ss : List (PbftViewChangeMsg R Request))
      → IsViewLog ss
      → All (λ s. Alike m s) ss
      → IsViewLog (ss ++ m ∷ [])
  IsViewLog-snoc m [] l a = (tt, tt)
  IsViewLog-snoc m (s ∷ ss) l a = (All-snoc s m ss l.0 a.0, IsViewLog-snoc m ss l.1 a.1)

module _ (P : Platform) (c : Config) where
  open P.D use {Double}
  open P use {Request}

  check_logged-Alike :
      (m : PbftViewChangeMsg Double Request) (ss : List (PbftViewChangeMsg Double Request))
      → check_logged P c m ss ≡ some tt
      → All (λ s. Alike m s) ss
  unfolding check_logged
  check_logged-Alike m [] h = tt
  check_logged-Alike m (s ∷ ss) h = (
    (
      ground (arith, ==_iff m.return_node s.return_node),
      ground (arith, ==_iff m.index s.index),
      ground (arith, ==_iff m.view s.view),
    ),
    check_logged-Alike m ss (ground arith),
  )

  -- what addAndValidate does when it does not fail
  add_view_change_lem :
      (m : PbftViewChangeMsg Double Request) (v v' : ViewNode P) (enough : Bool)
      → add_view_change P c m v ≡ some (enough, v')
      → (validate_view_change P c m ≡ some tt)
        × (check_logged P c m v.g_pbft_view_change_msgs ≡ some tt)
        × (enough ≡ not (ltb (length v.g_pbft_view_change_msgs + 1) (2 * g_min_invalid_nodes c)))
        × (v' ≡ record v { g_pbft_view_change_msgs = v.g_pbft_view_change_msgs ++ m ∷ [] })
  unfolding add_view_change
  add_view_change_lem m v v' enough h =
      let (u, valid, h1) = >>=-eq-some (validate_view_change P c m) _ h in
      let (u', logged, h2) = >>=-eq-some (check_logged P c m v.g_pbft_view_change_msgs) _ h1 in
      (valid, logged, ground arith, ground arith)

module _ (P : Platform) (c : Config) (blank : Blank P) (thd_id g_batch_threads : ℕ) where
  open P.D use {Double}
  open P use {Request}

  abbrev logged : PbftViewChangeMsg Double Request → ViewNode P → ViewNode P
  logged m v = record v { g_pbft_view_change_msgs = v.g_pbft_view_change_msgs ++ m ∷ [] }

  abbrev pub next_view : ViewNode P → ℕ
  next_view v = (v.node.g_view + 1) % c.g_node_cnt

  become_primary-clears :
      (v v' : ViewNode P)
      → become_primary P c blank thd_id g_batch_threads v ≡ some v'
      → (v'.g_pbft_view_change_msgs ≡ [])
        × (v'.g_redirected_requests ≡ [])
        × (v'.g_changing_view ≡ false)
  unfolding become_primary
  become_primary-clears v v' h =
      let ((nvmsg, v1), e1, h1) =
        >>=-eq-some (init_new_view P c (enter_view P c blank thd_id g_batch_threads v)) _ h in
      let (v2, e2, h2) =
        >>=-eq-some
          (log_new_batches P c blank thd_id g_batch_threads nvmsg.pre_prepare_messages
            (reset P c blank thd_id g_batch_threads v1))
          _ h1 in
      let (n, e3, h3) =
        >>=-eq-some
          (requeue P c blank thd_id g_batch_threads v2.g_redirected_requests
            (broadcast P c (new_view_packet nvmsg) v2.node))
          _ h2 in
      (ground arith, ground arith, ground arith)

  abbrev process : PbftViewChangeMsg Double Request → ViewNode P → Option (ViewNode P)
  process = process_pbft_view_change_msg P c blank thd_id g_batch_threads

  -- a message that is not ignored
  active :
      (m : PbftViewChangeMsg Double Request) (v v' : ViewNode P)
      → (c.g_node_id == v.node.g_view || leb m.view v.node.g_view) ≡ false
      → process m v ≡ some v'
      → (m.view ≡ next_view v)
        × (enough : Bool) × (v1 : ViewNode P) × (add_view_change P c m v ≡ some (enough, v1))
        × (after_logging P c blank thd_id g_batch_threads (next_view v) enough v1 ≡ some v')
  unfolding process_pbft_view_change_msg
  active m v v' on h =
      let (u, right, h1) =
        >>=-eq-some (assert (m.view == next_view v))
          (λ _. add_view_change P c m v >>= λ (r : Bool × ViewNode P).
            after_logging P c blank thd_id g_batch_threads (next_view v) r.0 r.1)
          (rw on at h) in
      let ((enough, v1), added, h2) = >>=-eq-some (add_view_change P c m v) _ h1 in
      (ground (arith, ==_iff m.view (next_view v)), enough, v1, added, h2)

  -- a message that the node has logged
  after_logging_lem :
      (m : PbftViewChangeMsg Double Request) (v v' v1 : ViewNode P) (enough : Bool)
      → enough ≡ not (ltb (length v.g_pbft_view_change_msgs + 1) (2 * g_min_invalid_nodes c))
      → v1 ≡ logged m v
      → after_logging P c blank thd_id g_batch_threads (next_view v) enough v1 ≡ some v'
      → ((v' ≡ logged m v)
          × ((length v.g_pbft_view_change_msgs + 1 < 2 * g_min_invalid_nodes c)
              ⊎ (c.g_node_id ≢ next_view v)))
        ⊎ ((become_primary P c blank thd_id g_batch_threads (logged m v) ≡ some v')
            × (2 * g_min_invalid_nodes c ≤ length v.g_pbft_view_change_msgs + 1)
            × (c.g_node_id ≡ next_view v))
  unfolding after_logging
  after_logging_lem m v v' v1 enough e same h =
      elim (Bool-cases (ltb (length v.g_pbft_view_change_msgs + 1) (2 * g_min_invalid_nodes c))) [
        | inl few ↦ inl (ground arith, inl (ltb→lt _ _ few))
        | inr many ↦ elim (Bool-cases (c.g_node_id == next_view v)) [
          | inl primary ↦
              let go : become_primary P c blank thd_id g_batch_threads v1 ≡ some v' =
                ground arith in
              inr (
                subst (λ w. become_primary P c blank thd_id g_batch_threads w ≡ some v') same go,
                ge_of_not_ltb _ _ many,
                (==_iff c.g_node_id (next_view v)).0 primary,
              )
          | inr other ↦ inl (ground arith, inr (ground (arith, ==_iff c.g_node_id (next_view v))))
        ]
      ]

  -- For a node whose log has view change messages of different nodes, all for one view and checkpoint, a view change
  -- message that fails no assert has one of three effects. The primary, and a node that has reached the message's view,
  -- ignore it. Otherwise the message is for the next view and valid, and with it the log is still of that kind: unless
  -- this is the next primary and the log then has messages of 2 f nodes, it is only logged; and if so, this node becomes
  -- the primary, with an empty log, no redirected request and the change of the view over.
  pub process_pbft_view_change_msg-cases :
      (m : PbftViewChangeMsg Double Request) (v v' : ViewNode P)
      → IsViewLog v.g_pbft_view_change_msgs
      → process m v ≡ some v'
      → (((c.g_node_id ≡ v.node.g_view) ⊎ (m.view ≤ v.node.g_view)) × (v' ≡ v))
        ⊎ ((m.view ≡ next_view v)
            × (validate_view_change P c m ≡ some tt)
            × IsViewLog (logged m v).g_pbft_view_change_msgs
            × (((v' ≡ logged m v)
                  × ((length v.g_pbft_view_change_msgs + 1 < 2 * g_min_invalid_nodes c)
                      ⊎ (c.g_node_id ≢ next_view v)))
                ⊎ ((become_primary P c blank thd_id g_batch_threads (logged m v) ≡ some v')
                    × (2 * g_min_invalid_nodes c ≤ length v.g_pbft_view_change_msgs + 1)
                    × (c.g_node_id ≡ next_view v)
                    × (v'.g_pbft_view_change_msgs ≡ [])
                    × (v'.g_redirected_requests ≡ [])
                    × (v'.g_changing_view ≡ false))))
  unfolding process_pbft_view_change_msg
  process_pbft_view_change_msg-cases m v v' log h =
      elim (Bool-cases (c.g_node_id == v.node.g_view || leb m.view v.node.g_view)) [
        | inl off ↦ inl (ignored off, ground arith)
        | inr on ↦
            let (next, enough, v1, added, h1) = active m v v' on h in
            let (valid, checked, e, same) = add_view_change_lem P c m v v1 enough added in
            let alike = check_logged-Alike P c m v.g_pbft_view_change_msgs checked in
            inr (
              next,
              valid,
              IsViewLog-snoc m v.g_pbft_view_change_msgs log alike,
              elim (after_logging_lem m v v' v1 enough e same h1) [
                | inl waits ↦ inl waits
                | inr (go, many, primary) ↦
                    let (empty, none_left, over) = become_primary-clears (logged m v) v' go in
                    inr (go, many, primary, empty, none_left, over)
              ],
            )
      ]
    where
      ignored : {a b d : ℕ} → (a == b || leb d b) ≡ true → (a ≡ b) ⊎ (d ≤ b)
      ignored {a} {b} {d} h = elim (Bool-cases (a == b)) [
        | inl here ↦ inl ((==_iff a b).0 here)
        | inr there ↦ inr (ground arith)
      ]

  -- The message with which a node asks for a change of the view is ignored by every node of the same view, itself
  -- included, where that view is the last: the next one is 0, which is not above it.
  pub init_view_change-ignored :
      (c' : Config) (v w : ViewNode P) (m : PbftViewChangeMsg Double Request)
      → init_view_change P c' v ≡ some m
      → v.node.g_view + 1 ≡ c'.g_node_cnt
      → w.node.g_view ≡ v.node.g_view
      → process m w ≡ some w
  unfolding process_pbft_view_change_msg
  init_view_change-ignored c' v w m h last_view same =
      let next : m.view ≡ (v.node.g_view + 1) % c'.g_node_cnt =
        (init_view_change_lem P c' v m h).0 in
      let none_above : m.view ≡ 0 = next ∙ rw last_view (mod_self c'.g_node_cnt) in ground arith
