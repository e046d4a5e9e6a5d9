-- ===== src/System/ViewChange/Evidence.antt =====
-- What the messages of an accepted view change message show (transport/message.cpp: PBFTViewChangeMsg::validate).
use algorand.Prelude.{
  All, update, ℕ, ◌+◌, ◌*◌, ◌≤◌, ◌<◌, ◌≡◌, Bool, true, false, ◌&&◌, ◌||◌, not, List, [], ◌∷◌, none,
  some, Text, text_eq, get_elem?, ◌==◌, ==_refl, leb, arith, ◌⊎◌, Bool-cases, Option-cases, inl,
  inr,
}
use algorand.Prelude.Counting.{count, count_mono, count_lt}
use algorand.Prelude.Fallible.{>>=-eq-some}
use algorand.Transport.Messages.{BatchRequests, IndexedMessage, PbftViewChangeMsg}
use algorand.System.Node.{Platform, Config, g_min_invalid_nodes}
use algorand.System.Batch.{check_hashes}
use algorand.System.ViewChange.{last, count_matching, validate_batches, validate_view_change}

abbrev pub entry_is : List ℕ → ℕ → ℕ → Bool
entry_is xs i v = elim (get_elem? xs i) [ none ↦ false | some x ↦ x == v ]

abbrev pub text_is : List Text → ℕ → Text → Bool
text_is ts i s = elim (get_elem? ts i) [ none ↦ false | some t ↦ text_eq t s ]

module _ (P : Platform) (c : Config) where
  open P.D use {Double}
  open P use {Request}

  -- a prepare message for the batch, with its numbers, its view and the hash of its last request
  abbrev pub agrees : BatchRequests Double Request → IndexedMessage Double → Bool
  agrees breq m =
      entry_is breq.index 0 m.index
      && (entry_is breq.index (last P c) m.end_index
          && (breq.view == m.view && text_is breq.hash (last P c) m.hash))

  -- one of the messages is such a message of the node r
  abbrev pub vouches : BatchRequests Double Request → List (IndexedMessage Double) → ℕ → Bool
  vouches breq [] r = false
  vouches breq (m ∷ ms) r = (m.return_node == r && agrees breq m) || vouches breq ms r

  -- a message is passed over, or it is for the batch and of a node that did not count yet
  count_matching_cases :
      (breq : BatchRequests Double Request) (m : IndexedMessage Double)
      (ms : List (IndexedMessage Double)) (received : ℕ → Bool) (k r : ℕ)
      → count_matching P c breq (m ∷ ms) received k ≡ some r
      → (count_matching P c breq ms received k ≡ some r)
        ⊎ ((agrees breq m ≡ true)
            × (m.return_node < c.g_node_cnt)
            × (received m.return_node ≡ false)
            × (count_matching P c breq ms (update received m.return_node true) (k + 1) ≡ some r))
  unfolding count_matching
  count_matching_cases breq m ms received k r h = elim (Option-cases (get_elem? breq.index 0)) [
    | inl e ↦ ground arith
    | inr (first, e) ↦ elim (Bool-cases (first == m.index)) [
      | inr other ↦ inl (ground arith)
      | inl same ↦ elim (Option-cases (get_elem? breq.index (last P c))) [
        | inl e' ↦ ground arith
        | inr (end, e') ↦ elim (Option-cases (get_elem? breq.hash (last P c))) [
          | inl e2 ↦ ground arith
          | inr (t, e2) ↦ inr (ground arith, ground arith, ground arith, ground arith)
        ]
      ]
    ]
  ]

  -- a message that counts is of a node that did not count yet
  count_matching_lem :
      (breq : BatchRequests Double Request) (ms : List (IndexedMessage Double))
      (received : ℕ → Bool) (k r : ℕ)
      → count_matching P c breq ms received k ≡ some r
      → r ≤ k + count (λ j. vouches breq ms j && not (received j)) c.g_node_cnt 0
  count_matching_lem breq [] received k r h = unfold count_matching in ground arith
  count_matching_lem breq (m ∷ ms) received k r h =
      let q : ℕ → Bool = λ j. vouches breq (m ∷ ms) j && not (received j) in
      let p : ℕ → Bool = λ j. vouches breq ms j && not (received j) in
      let p' : ℕ → Bool = λ j. vouches breq ms j && not (update received m.return_node true j) in
      elim (count_matching_cases breq m ms received k r h) [
        | inl rest ↦
            let skipped = count_mono p q (λ j e. ground arith) c.g_node_cnt 0 in
            omega (arith, count_matching_lem breq ms received k r rest)
        | inr (a, b, d, rest) ↦
            let counted =
              count_lt p' q (λ j e. ground arith) m.return_node
                (ground (arith, ==_refl m.return_node)) (ground (arith, ==_refl m.return_node))
                c.g_node_cnt 0 (omega arith) (omega arith) in
            omega (
              arith,
              count_matching_lem breq ms (update received m.return_node true) (k + 1) r rest,
            )
      ]

  -- A batch whose hashes are those of its requests, and which at least 2 f nodes vouch for.
  abbrev pub IsProven : List (IndexedMessage Double) → BatchRequests Double Request → Type 0
  IsProven ms breq =
      (check_hashes P c breq c.g_batch_size 0 ≡ some tt)
      × (2 * g_min_invalid_nodes c ≤ count (vouches breq ms) c.g_node_cnt 0)

  counted-IsProven :
      (ms : List (IndexedMessage Double)) (breq : BatchRequests Double Request) (k : ℕ)
      → check_hashes P c breq c.g_batch_size 0 ≡ some tt
      → count_matching P c breq ms (λ _. false) 0 ≡ some k
      → leb (2 * g_min_invalid_nodes c) k ≡ true
      → IsProven ms breq
  counted-IsProven ms breq k hashes counted enough =
      let some_of = count_matching_lem breq ms (λ _. false) 0 k counted in
      let all =
        count_mono (λ j. vouches breq ms j && not false) (vouches breq ms) (λ j e. ground arith)
          c.g_node_cnt 0 in
      (hashes, ground arith)

  validate_batches-IsProven :
      (breqs : List (BatchRequests Double Request)) (ms : List (IndexedMessage Double))
      → validate_batches P c breqs ms ≡ some tt
      → All (IsProven ms) breqs
  unfolding validate_batches
  validate_batches-IsProven [] ms h = tt
  validate_batches-IsProven (b ∷ bs) ms h =
      let (u, hashes, h1) = >>=-eq-some (check_hashes P c b c.g_batch_size 0) _ h in
      let (k, counted, h2) = >>=-eq-some (count_matching P c b ms (λ _. false) 0) _ h1 in
      elim (Bool-cases (leb (2 * g_min_invalid_nodes c) k)) [
        | inl enough ↦ (
          counted-IsProven ms b k hashes counted enough,
          validate_batches-IsProven bs ms (ground arith),
        )
        | inr few ↦ ground arith
      ]

  -- In a view change message that `validate` accepts, each batch has the hashes of its requests and comes with prepare
  -- messages of at least 2 f nodes for it: of its view, with its first and last numbers and its last hash.
  pub validate_view_change-IsProven :
      (m : PbftViewChangeMsg Double Request)
      → validate_view_change P c m ≡ some tt
      → All (IsProven m.prepare_messages) m.pre_prepare_messages
  unfolding validate_view_change
  validate_view_change-IsProven m h =
      validate_batches-IsProven m.pre_prepare_messages m.prepare_messages h
