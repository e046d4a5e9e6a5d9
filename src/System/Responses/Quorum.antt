-- ===== src/System/Responses/Quorum.antt =====
-- When a client takes a batch as answered (transport/message.cpp: ClientResponseMessage::validate).
use algorand.Prelude.{
  ℕ, zero, suc, ◌+◌, ◌*◌, ◌%◌, ◌≤◌, ◌<◌, ◌≡◌, ◌⊎◌, Bool, true, false, ◌&&◌, Option, none, some,
  ◌==◌, ==_iff, ==_refl, ltb, arith, Bool-cases, Option-cases, inl, inr, refl, ap, ◌∙◌, sym, update,
}
use algorand.Prelude.Counting.{count}
use algorand.Prelude.Fallible.{◌>>=◌}
use algorand.Transport.Messages.{ClientResponseMessage}
use algorand.System.Node.{Platform, Config, index_size, g_min_invalid_nodes, uint64_max}
use algorand.System.Responses.{
  same_entries, Responses, count_responses, reset_row, collect, validate,
}

abbrev is_given : Option (Unit {0}) → Bool
is_given none = false
is_given (some u) = true

module _ (P : Platform) (c : Config) where
  open P.D use {Double}

  -- the log has a response of the node i to the transaction, with the same numbers and times
  abbrev pub responded : Responses P c → ClientResponseMessage Double → ℕ → Bool
  responded clrsp_store m i =
      let clrsp = clrsp_store (m.txn_id % index_size c) i in
      clrsp.txn_id == m.txn_id
      && (is_given (same_entries c.g_batch_size m.index clrsp.index)
          && is_given (same_entries c.g_batch_size m.client_ts clrsp.client_ts))

  count_responses_lem :
      (clrsp_store : Responses P c) (m : ClientResponseMessage Double) (left i k r : ℕ)
      → count_responses P c clrsp_store m left i k ≡ some r
      → r ≡ k + count (responded clrsp_store m) left i
  unfolding count_responses
  count_responses_lem clrsp_store m zero i k r h = ground arith
  count_responses_lem clrsp_store m (suc left) i k r h = ground (
    arith,
    count_responses_lem clrsp_store m left (i + 1) k r,
    count_responses_lem clrsp_store m left (i + 1) (k + 1) r,
  )

  reset_row_before :
      (left i j : ℕ) (row : ℕ → ClientResponseMessage Double)
      → j < i
      → reset_row P c left i row j ≡ row j
  unfolding reset_row
  reset_row_before zero i j row h = refl
  reset_row_before (suc left) i j row h =
      reset_row_before left (i + 1) j _ (omega arith) ∙ ground arith

  reset_row_lem :
      (left i j : ℕ) (row : ℕ → ClientResponseMessage Double)
      → i ≤ j
      → j < i + left
      → (reset_row P c left i row j).txn_id ≡ uint64_max
  unfolding reset_row
  reset_row_lem zero i j row h h' = absurd (omega arith)
  reset_row_lem (suc left) i j row h h' = elim (Bool-cases (i == j)) [
    | inl here ↦
        let at : j ≡ i = ground (arith, ==_iff i j) in
        let row' =
          update row i (record (row i) { base = record (row i).base { txn_id = uint64_max } }) in
        let kept = reset_row_before left (i + 1) i row' (omega arith) in
        rw at (ap (λ (r : ClientResponseMessage Double). r.txn_id) kept ∙ rw (==_refl i) refl)
    | inr later ↦
        let next : i + 1 ≤ j = ground (arith, ==_iff i j) in
        reset_row_lem left (i + 1) j _ next (omega arith)
  ]

  -- the result of a call that does not fail
  result_eq : {A : Type 0} {a b : A} → some a ≡ some b → a ≡ b
  result_eq {a} e = ap (λ x. elim x [ none ↦ a | some y ↦ y ]) e

  -- A client takes a batch as answered only when the log has responses to it with the same numbers and times from
  -- at least 2 f nodes before the message is added; afterwards no entry of the row is for a transaction. Otherwise
  -- fewer than 2 f nodes had responded, and the message is added to the log.
  pub validate-quorum :
      (m : ClientResponseMessage Double) (clrsp_store store' : Responses P c) (found : Bool)
      → validate P c m clrsp_store ≡ some (found, store')
      → ((found ≡ true)
          × (2 * g_min_invalid_nodes c ≤ count (responded clrsp_store m) c.g_node_cnt 0)
          × ((i : ℕ) → i < c.g_node_cnt → (store' (m.txn_id % index_size c) i).txn_id ≡ uint64_max))
        ⊎ ((found ≡ false)
            × (count (responded clrsp_store m) c.g_node_cnt 0 < 2 * g_min_invalid_nodes c)
            × (store' ≡ collect P c m clrsp_store))
  unfolding validate
  validate-quorum m clrsp_store store' found h =
      elim (Option-cases (count_responses P c clrsp_store m c.g_node_cnt 0 0)) [
        | inl e ↦ ground arith
        | inr (k, e) ↦
            let r = count_responses_lem clrsp_store m c.g_node_cnt 0 0 k e in
            elim (Bool-cases (ltb m.return_node_id c.g_node_cnt)) [
              | inr outside ↦ ground arith
              | inl inside ↦ elim (Bool-cases (ltb (k + 1) (2 * g_min_invalid_nodes c + 1))) [
                | inl few ↦
                    let same = result_eq (sym (rw (e, inside, ◌>>=◌, few) refl) ∙ h) in
                    inr (sym (ap (λ s. s.0) same), ground arith, sym (ap (λ s. s.1) same))
                | inr enough ↦
                    let row = m.txn_id % index_size c in
                    let stored = collect P c m clrsp_store in
                    let reset = update stored row (reset_row P c c.g_node_cnt 0 (stored row)) in
                    let result : validate P c m clrsp_store ≡ some (true, reset) =
                      rw (e, inside, ◌>>=◌, enough) refl in
                    let same = result_eq (sym result ∙ h) in
                    inl (
                      sym (ap (λ s. s.0) same),
                      ground arith,
                      λ i small.
                          ap (λ s. (s.1 row i).txn_id) (sym same)
                          ∙ rw (==_refl row)
                              (reset_row_lem c.g_node_cnt 0 i _ (omega arith) (omega arith)),
                    )
              ]
            ]
      ]
