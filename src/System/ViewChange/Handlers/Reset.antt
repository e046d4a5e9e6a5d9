-- ===== src/System/ViewChange/Handlers/Reset.antt =====
-- What a view change forgets (system/worker_thread.cpp: reset of the worker).
use algorand.Prelude.{
  ℕ, zero, suc, ◌+◌, ◌*◌, ◌%◌, ◌≤◌, ◌<◌, ◌≡◌, ◌≢◌, false, [], some, ◌==◌, ==_iff, ==_refl, arith,
  Bool-cases, inl, inr, refl, ap, sym, ◌∙◌, subst,
}
use algorand.Prelude.Int.{pos}
use algorand.Transport.Messages.{IndexedMessage, PbftPreMessage}
use algorand.System.Node.{
  Platform, Config, Node, TxnManager, index_size, g_min_invalid_nodes, uint64_max,
}
use algorand.System.Send.{create_message}
use algorand.System.Prepare.{set_txn, prepared}
use algorand.System.Prepare.Quorum.{prepared-none}
use algorand.System.ViewChange.{ViewNode}
use algorand.System.ViewChange.Stores.{fill_lem, fill_rows_lem}
use algorand.System.ViewChange.Handlers.{Blank, reset_txn, reset_txns, reset}

below : (a : ℕ) {row size : ℕ} → row < size → a % size < 0 + size
below a h = grind arith

other_id : {id x : ℕ} → id ≢ uint64_max → x ≡ uint64_max → (x == id) ≡ false
other_id {id} {x} known e = ground (arith, ==_iff x id)

module _ (P : Platform) (c : Config) (blank : Blank P) (thd_id g_batch_threads : ℕ) where
  open P.D use {Double}
  open P use {Request}

  -- a transaction manager as `reset` leaves it
  pub record IsFresh (txn : TxnManager Double Request) : Type 0 where
    pub prepared : txn.prepared ≡ false
    pub committed_local : txn.committed_local ≡ false
    pub prep_rsp_cnt : txn.prep_rsp_cnt ≡ pos (2 * g_min_invalid_nodes c)
    pub commit_rsp_cnt : txn.commit_rsp_cnt ≡ pos (2 * g_min_invalid_nodes c + 1)
    pub requests : txn.requests ≡ []

  abbrev entry : ℕ → Node P → Node P
  entry = reset_txn P c blank thd_id g_batch_threads

  abbrev entries : ℕ → ℕ → Node P → Node P
  entries = reset_txns P c blank thd_id g_batch_threads

  reset_txn-IsFresh : (id : ℕ) (n : Node P) → id ≢ uint64_max → IsFresh ((entry id n).txn_table id)
  unfolding reset_txn set_txn
  reset_txn-IsFresh id n known =
      let not_max : (id == uint64_max) ≡ false = ground (arith, ==_iff id uint64_max) in
      rw (not_max, ==_refl id)
        (record {
          prepared = refl;
          committed_local = refl;
          prep_rsp_cnt = refl;
          commit_rsp_cnt = refl;
          requests = refl;
        })

  -- a manager that is fresh stays so
  reset_txn_kept :
      (k id : ℕ) (n : Node P) → IsFresh (n.txn_table id) → IsFresh ((entry k n).txn_table id)
  unfolding reset_txn set_txn
  reset_txn_kept k id n f = elim (Bool-cases (k == uint64_max)) [
    | inl max ↦ rw max f
    | inr other ↦ elim (Bool-cases (k == id)) [
      | inl here ↦
          rw (other, here)
            (record {
              prepared = refl;
              committed_local = refl;
              prep_rsp_cnt = refl;
              commit_rsp_cnt = refl;
              requests = refl;
            })
      | inr there ↦ rw (other, there) f
    ]
  ]

  reset_txn_store : (k : ℕ) (n : Node P) → (entry k n).pre_store ≡ n.pre_store
  unfolding reset_txn set_txn
  reset_txn_store k n = elim (Bool-cases (k == uint64_max)) [
    | inl max ↦ rw max refl
    | inr other ↦ rw other refl
  ]

  reset_txn_queries : (k : ℕ) (n : Node P) → (entry k n).cqry_store ≡ n.cqry_store
  unfolding reset_txn set_txn
  reset_txn_queries k n = elim (Bool-cases (k == uint64_max)) [
    | inl max ↦ rw max refl
    | inr other ↦ rw other refl
  ]

  reset_txns_queries : (left i : ℕ) (n : Node P) → (entries left i n).cqry_store ≡ n.cqry_store
  unfolding reset_txns
  reset_txns_queries zero i n = refl
  reset_txns_queries (suc left) i n =
      reset_txns_queries left (i + 1) _ ∙ reset_txn_queries (n.pre_store i).txn_id n

  reset_txns_kept :
      (left i id : ℕ) (n : Node P)
      → IsFresh (n.txn_table id)
      → IsFresh ((entries left i n).txn_table id)
  unfolding reset_txns
  reset_txns_kept zero i id n f = f
  reset_txns_kept (suc left) i id n f =
      reset_txns_kept left (i + 1) id _ (reset_txn_kept (n.pre_store i).txn_id id n f)

  reset_txns-IsFresh :
      (left i id row : ℕ) (n : Node P)
      → id ≢ uint64_max
      → i ≤ row
      → row < i + left
      → (n.pre_store row).txn_id ≡ id
      → IsFresh ((entries left i n).txn_table id)
  unfolding reset_txns
  reset_txns-IsFresh zero i id row n known lo hi e = absurd (omega arith)
  reset_txns-IsFresh (suc left) i id row n known lo hi e = elim (Bool-cases (i == row)) [
    | inl here ↦
        let at : (n.pre_store i).txn_id ≡ id = rw ((==_iff i row).0 here) e in
        subst (λ k. IsFresh ((entries left (i + 1) (entry k n)).txn_table id)) (sym at)
          (reset_txns_kept left (i + 1) id _ (reset_txn-IsFresh id n known))
    | inr later ↦
        reset_txns-IsFresh left (i + 1) id row _ known (ground (arith, ==_iff i row)) (omega arith)
          (rw (reset_txn_store (n.pre_store i).txn_id n) e)
  ]

  -- After the reset of a view change, a transaction with a pre-prepare message in the log is as if it was new: its
  -- manager has no flag set, awaits 2 f prepare and 2 f + 1 commit messages, and holds no request; and `prepared` answers
  -- false until new prepare messages arrive. No entry of the logs of pre-prepare, prepare and commit messages is for a
  -- transaction any more; the log of the clients' queries is kept as it was.
  pub reset-forgets :
      (v : ViewNode P) (id row r j : ℕ)
      → id ≢ uint64_max
      → row < index_size c
      → (v.node.pre_store row).txn_id ≡ id
      → r < index_size c
      → j < c.g_node_cnt
      → let n = (reset P c blank thd_id g_batch_threads v).node in
        IsFresh (n.txn_table id)
        × (prepared P c id n ≡ some (false, n))
        × ((n.pre_store r).txn_id ≡ uint64_max)
        × ((n.prep_store r j).txn_id ≡ uint64_max)
        × ((n.comm_store r j).txn_id ≡ uint64_max)
        × (n.cqry_store ≡ v.node.cqry_store)
  unfolding reset create_message
  reset-forgets v id row r j known small e in_size in_nodes =
      let size = index_size c in
      let n = (reset P c blank thd_id g_batch_threads v).node in
      let fresh = reset_txns-IsFresh size 0 id row v.node known (omega arith) (omega arith) e in
      let id_of = λ (m : IndexedMessage Double). m.txn_id in
      let silent : (k : ℕ)
          → k < c.g_node_cnt
          → ((n.prep_store (id % size) k).txn_id == id) ≡ false =
        λ k h.
          let empty : (n.prep_store (id % size) k).txn_id ≡ uint64_max = ap id_of (
            fill_rows_lem size 0 c.g_node_cnt _ _ (id % size) k (omega arith) (below id small) h) in
          other_id known empty in
      (
        fresh,
        prepared-none P c n id fresh.prepared silent,
        ap (λ (m : PbftPreMessage Double Request). m.txn_id)
            (fill_lem size 0 _ _ r (omega arith) (omega arith)),
        ap id_of (fill_rows_lem size 0 c.g_node_cnt _ _ r j (omega arith) (omega arith) in_nodes),
        ap id_of (fill_rows_lem size 0 c.g_node_cnt _ _ r j (omega arith) (omega arith) in_nodes),
        reset_txns_queries size 0 v.node,
      )
