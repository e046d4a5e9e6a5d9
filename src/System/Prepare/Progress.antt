-- ===== src/System/Prepare/Progress.antt =====
-- When a transaction does become prepared (system/worker_thread.cpp: prepared).
use algorand.Prelude.{
  ℕ, zero, suc, ◌+◌, ◌-◌, ◌*◌, ◌%◌, ◌≤◌, ◌<◌, ◌≡◌, true, none, some, ◌==◌, leb, arith, Bool-cases,
  inl, inr, ==_iff, refl,
}
use algorand.System.Node.{Platform, Config, Node, index_size, g_min_invalid_nodes}
use algorand.System.Prepare.{prepared_loop, prepared, set_txn, queries_logged, preprepares_logged}
use algorand.System.Prepare.Quorum.{speaks_for, speakers, IsLogged, set_txn_lem}

module _ (P : Platform) (c : Config) (n : Node P) (txn_id : ℕ) where
  -- of the nodes below g_node_cnt, each one's message about the transaction speaks for the batch from b to e
  abbrev pub Agree : ℕ → ℕ → Type 0
  Agree b e =
      (i : ℕ)
      → i < c.g_node_cnt
      → (n.prep_store (txn_id % index_size c) i).txn_id ≡ txn_id
      → speaks_for P c n txn_id b e i ≡ true

  some_reaches :
      (b e : ℕ)
      → Agree b e
      → IsLogged P c n txn_id b e
      → (left i j : ℕ) → i + left ≤ c.g_node_cnt
      → 1 ≤ speakers P c n txn_id b e left i
      → 2 * g_min_invalid_nodes c ≤ j + speakers P c n txn_id b e left i
      → prepared_loop P c n txn_id left i (some (b, e)) j ≡ some true
  unfolding prepared_loop
  some_reaches b e agree logged zero i j h one enough = absurd (omega arith)
  some_reaches b e agree (queries, pres) (suc left) i j h one enough =
      let m = n.prep_store (txn_id % index_size c) i in
      elim (Bool-cases (m.txn_id == txn_id)) [
        | inl hit ↦
            let s = agree i (omega arith) (ground (arith, ==_iff m.txn_id txn_id)) in
            ground (arith, some_reaches b e agree (queries, pres) left (i + 1) (j + 1))
        | inr miss ↦ ground (arith, some_reaches b e agree (queries, pres) left (i + 1) j)
      ]

  none_reaches :
      (b e : ℕ)
      → Agree b e
      → IsLogged P c n txn_id b e
      → (left i : ℕ) → i + left ≤ c.g_node_cnt
      → 1 ≤ speakers P c n txn_id b e left i
      → 2 * g_min_invalid_nodes c ≤ speakers P c n txn_id b e left i
      → prepared_loop P c n txn_id left i none 0 ≡ some true
  unfolding prepared_loop
  none_reaches b e agree logged zero i h one enough = absurd (omega arith)
  none_reaches b e agree (queries, pres) (suc left) i h one enough =
      let m = n.prep_store (txn_id % index_size c) i in
      elim (Bool-cases (m.txn_id == txn_id)) [
        | inl hit ↦
            let s = agree i (omega arith) (ground (arith, ==_iff m.txn_id txn_id)) in
            let first : m.index ≡ b = ground (arith, ==_iff m.index b) in
            let end : m.end_index ≡ e = ground (arith, ==_iff m.end_index e) in
            let queries' : queries_logged P c n (m.end_index + 1 - m.index) m.index ≡ true =
              rw (first, end) queries in
            let pres' : preprepares_logged P c n (m.end_index + 1 - m.index) m.index ≡ true =
              rw (first, end) pres in
            elim (Bool-cases (leb (2 * g_min_invalid_nodes c) 1)) [
              | inl few ↦ rw (hit, queries', pres', few) refl
              | inr more ↦
                  let rest =
                    some_reaches b e agree (queries, pres) left (i + 1) 1 (omega arith)
                      (ground arith) (ground arith) in
                  let rest' : prepared_loop P c n txn_id left (i + 1) (some (m.index, m.end_index))
                        1
                      ≡ some true =
                    rw (first, end) rest in
                  rw (hit, queries', pres', more, rest') refl
            ]
        | inr miss ↦ ground (arith, none_reaches b e agree (queries, pres) left (i + 1))
      ]

  -- Enough prepare messages make a transaction prepared: when the messages in the log about it, from nodes below
  -- g_node_cnt, speak for one batch b to e (whatever their hashes and views), at least 2 f of them and at least
  -- one do so, and for each transaction of that batch the client's query and the pre-prepare message are in the
  -- log, then `prepared` returns true and the flag is set.
  pub prepared-reached :
      (b e : ℕ)
      → Agree b e
      → IsLogged P c n txn_id b e
      → 1 ≤ speakers P c n txn_id b e c.g_node_cnt 0
      → 2 * g_min_invalid_nodes c ≤ speakers P c n txn_id b e c.g_node_cnt 0
      → (n' : Node P) × (prepared P c txn_id n ≡ some (true, n'))
        × ((n'.txn_table txn_id).prepared ≡ true)
  unfolding prepared
  prepared-reached b e agree logged one enough =
      let found = none_reaches b e agree logged c.g_node_cnt 0 (omega arith) one enough in
      let txn = n.txn_table txn_id in
      elim (Bool-cases txn.prepared) [
        | inl already ↦ (n, rw already refl, already)
        | inr fresh ↦ (
          set_txn P c txn_id (record txn { prepared = true }) n,
          rw (fresh, found) refl,
          rw (set_txn_lem P c n txn_id (record txn { prepared = true })) refl,
        )
      ]
