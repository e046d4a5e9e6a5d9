-- ===== src/System/Prepare/Quorum.antt =====
-- What it takes for a transaction to be prepared (system/worker_thread.cpp: prepared).
use algorand.Prelude.{
  ℕ, zero, suc, ◌+◌, ◌-◌, ◌*◌, ◌%◌, ◌≤◌, ◌<◌, ◌≡◌, refl, Bool, true, false, ◌&&◌, none, some, ◌==◌,
  arith, Bool-cases, Option-cases, inl, inr, ap, ◌∙◌, sym, ==_refl,
}
use algorand.Prelude.Counting.{count}
use algorand.System.Node.{Platform, TxnManager, Config, Node, index_size, g_min_invalid_nodes}
use algorand.System.Prepare.{prepared_loop, prepared, set_txn, queries_logged, preprepares_logged}

module _ (P : Platform) (c : Config) (n : Node P) (txn_id : ℕ) where
  -- a prepare message in the log speaks for the transaction and for the batch from b to e
  abbrev pub speaks_for : ℕ → ℕ → ℕ → Bool
  speaks_for b e i =
      let m = n.prep_store (txn_id % index_size c) i in
      m.txn_id == txn_id && (m.index == b && m.end_index == e)

  -- the number of nodes, of `left` from i on, whose message does
  abbrev pub speakers : ℕ → ℕ → ℕ → ℕ → ℕ
  speakers b e left i = count (speaks_for b e) left i

  abbrev pub IsLogged : ℕ → ℕ → Type 0
  IsLogged b e =
      (queries_logged P c n (e + 1 - b) b ≡ true) × (preprepares_logged P c n (e + 1 - b) b ≡ true)

  loop_some :
      (b e left i j : ℕ)
      → prepared_loop P c n txn_id left i (some (b, e)) j ≡ some true
      → (2 * g_min_invalid_nodes c ≤ j + speakers b e left i)
        × (1 ≤ speakers b e left i)
        × IsLogged b e
  unfolding prepared_loop
  loop_some b e zero i j h = cc
  loop_some b e (suc left) i j h =
      ground (arith, loop_some b e left (i + 1) j, loop_some b e left (i + 1) (j + 1))

  loop_none :
      (left i : ℕ)
      → prepared_loop P c n txn_id left i none 0 ≡ some true
      → (b : ℕ) × (e : ℕ) × (2 * g_min_invalid_nodes c ≤ speakers b e left i)
        × (1 ≤ speakers b e left i)
        × IsLogged b e
  unfolding prepared_loop
  loop_none zero i h = cc
  loop_none (suc left) i h =
      let m = n.prep_store (txn_id % index_size c) i in
      elim (Bool-cases (m.txn_id == txn_id)) [
        | inl hit ↦ (
          m.index,
          m.end_index,
          ground (arith, loop_some m.index m.end_index left (i + 1) 1),
          ground (arith, loop_some m.index m.end_index left (i + 1) 1),
          ground (arith, loop_some m.index m.end_index left (i + 1) 1),
        )
        | inr miss ↦
            let (b, e, q, o, l) = loop_none left (i + 1) (ground arith) in
            (b, e, ground arith, ground arith, l)
      ]

  loop_silent :
      (left i j : ℕ)
      → ((k : ℕ)
          → i ≤ k
          → k < i + left
          → ((n.prep_store (txn_id % index_size c) k).txn_id == txn_id) ≡ false)
      → prepared_loop P c n txn_id left i none j ≡ some false
  unfolding prepared_loop
  loop_silent zero i j h = refl
  loop_silent (suc left) i j h =
      rw (h i (omega arith) (omega arith))
        (loop_silent left (i + 1) j (λ k lo hi. h k (omega arith) (omega arith)))

  -- without a prepare message for it in the log, a transaction is not prepared
  pub prepared-none :
      (n.txn_table txn_id).prepared ≡ false
      → ((k : ℕ)
          → k < c.g_node_cnt
          → ((n.prep_store (txn_id % index_size c) k).txn_id == txn_id) ≡ false)
      → prepared P c txn_id n ≡ some (false, n)
  unfolding prepared
  prepared-none fresh h =
      rw (fresh, loop_silent c.g_node_cnt 0 0 (λ k lo hi. h k (omega arith))) refl

  pub set_txn_lem :
      (txn : TxnManager P.D.Double P.Request) → (set_txn P c txn_id txn n).txn_table txn_id ≡ txn
  unfolding set_txn
  set_txn_lem txn = rw (==_refl txn_id)

  prepared_flag :
      {n' : Node P}
      → (n.txn_table txn_id).prepared ≡ false
      → prepared P c txn_id n ≡ some (true, n')
      → (n'.txn_table txn_id).prepared ≡ true
  unfolding prepared
  prepared_flag {n'} fresh h =
      elim (Option-cases (prepared_loop P c n txn_id c.g_node_cnt 0 none 0)) [
        | inl e ↦ ground arith
        | inr (found, e) ↦
            let same : set_txn P c txn_id (record (n.txn_table txn_id) { prepared = true }) n ≡ n' =
              ground arith in
            rw (sym same, set_txn_lem (record (n.txn_table txn_id) { prepared = true }))
      ]

  -- A transaction that becomes prepared has, for one batch b to e, prepare messages in the log from at least
  -- 2 f nodes, and from at least one; and for each transaction of that batch the client's query and the
  -- pre-prepare message are in the log. The flag is then set.
  pub prepared-quorum :
      {n' : Node P}
      → (n.txn_table txn_id).prepared ≡ false
      → prepared P c txn_id n ≡ some (true, n')
      → (b : ℕ) × (e : ℕ) × (2 * g_min_invalid_nodes c ≤ speakers b e c.g_node_cnt 0)
        × (1 ≤ speakers b e c.g_node_cnt 0)
        × IsLogged b e
        × ((n'.txn_table txn_id).prepared ≡ true)
  unfolding prepared
  prepared-quorum {n'} fresh h =
      elim (Option-cases (prepared_loop P c n txn_id c.g_node_cnt 0 none 0)) [
        | inl e ↦ ground arith
        | inr (found, e) ↦
            let yes_found : found ≡ true = ground arith in
            let (b, e', q, o, l) = loop_none c.g_node_cnt 0 (e ∙ ap some yes_found) in
            (b, e', q, o, l, prepared_flag fresh h)
      ]
