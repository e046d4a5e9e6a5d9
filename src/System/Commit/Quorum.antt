-- ===== src/System/Commit/Quorum.antt =====
-- What it takes for a transaction to be committed (system/worker_thread.cpp: committed_local), and what two
-- nodes that commit have in common.
use algorand.Prelude.{
  ℕ, zero, suc, ◌+◌, ◌-◌, ◌*◌, ◌%◌, ◌≤◌, ◌≡◌, Bool, true, ◌&&◌, some, ◌==◌, arith, Option-cases,
  inl, inr, sym, text_eq,
}
use algorand.Prelude.Counting.{count, count_meet}
use algorand.Transport.Messages.{IndexedMessage}
use algorand.System.Node.{Platform, Config, Node, index_size, g_min_invalid_nodes}
use algorand.System.Prepare.{set_txn}
use algorand.System.Prepare.Quorum.{set_txn_lem}
use algorand.System.Commit.{count_commits, find_prep, committed_local}

module _ (P : Platform) (c : Config) where
  -- the prepare message that the commit messages for m are compared with
  abbrev pub prepare_of : IndexedMessage P.D.Double → Node P → IndexedMessage P.D.Double
  prepare_of m n = find_prep P c n (m.txn_id % index_size c) m.index (c.g_node_cnt - 1) 0

  -- node i's commit message for m agrees with it
  abbrev pub confirms : IndexedMessage P.D.Double → Node P → ℕ → Bool
  confirms m n i =
      let s = n.comm_store (m.txn_id % index_size c) i in
      let p = prepare_of m n in
      s.index == p.index
      && (text_eq p.hash s.hash && (p.view == s.view && p.end_index == s.end_index))

  count_commits_lem :
      (m : IndexedMessage P.D.Double) (n : Node P) (left i k r : ℕ)
      → count_commits P c n (m.txn_id % index_size c) (prepare_of m n) left i k ≡ some r
      → r ≡ k + count (confirms m n) left i
  unfolding count_commits
  count_commits_lem m n zero i k r h = ground arith
  count_commits_lem m n (suc left) i k r h =
      ground (
        arith,
        count_commits_lem m n left (i + 1) k r,
        count_commits_lem m n left (i + 1) (k + 1) r,
      )

  -- A transaction that a node takes as committed was prepared there, and at least 2 f + 1 nodes' commit
  -- messages in the log agree with its prepare message on index, hash, view and end of the batch. The flag of
  -- the transaction is then set.
  pub committed_local-quorum :
      (m : IndexedMessage P.D.Double) (n : Node P) {n' : Node P}
      → committed_local P c m n ≡ some (true, n')
      → ((n.txn_table m.txn_id).prepared ≡ true)
        × (2 * g_min_invalid_nodes c + 1 ≤ count (confirms m n) c.g_node_cnt 0)
        × ((n'.txn_table m.txn_id).committed_local ≡ true)
  unfolding committed_local
  committed_local-quorum m n {n'} h =
      elim (Option-cases
        (count_commits P c n (m.txn_id % index_size c) (prepare_of m n) c.g_node_cnt 0 0)) [
          | inl e ↦ ground arith
          | inr (k, e) ↦
              let r = count_commits_lem m n c.g_node_cnt 0 0 k e in
              let same : set_txn P c m.txn_id
                    (record (n.txn_table m.txn_id) { committed_local = true }) n
                  ≡ n' =
                ground arith in
              (
                ground arith,
                ground arith,
                rw (
                  sym same,
                  set_txn_lem P c n m.txn_id
                      (record (n.txn_table m.txn_id) { committed_local = true }),
                ),
              )
        ]

  -- Where the number of nodes is 3 f + 1, two nodes that take transactions as committed have at least f + 1
  -- senders in common: nodes whose commit messages to the one and to the other agree with the prepare message
  -- that each of the two compares with.
  pub committed_local-overlap :
      (m₁ m₂ : IndexedMessage P.D.Double) (n₁ n₂ : Node P) {n₁' n₂' : Node P}
      → c.g_node_cnt % 3 ≡ 1
      → committed_local P c m₁ n₁ ≡ some (true, n₁')
      → committed_local P c m₂ n₂ ≡ some (true, n₂')
      → g_min_invalid_nodes c + 1 ≤ count (λ i. confirms m₁ n₁ i && confirms m₂ n₂ i) c.g_node_cnt 0
  committed_local-overlap m₁ m₂ n₁ n₂ three h₁ h₂ =
      let (_, q₁, _) = committed_local-quorum m₁ n₁ h₁ in
      let (_, q₂, _) = committed_local-quorum m₂ n₂ h₂ in
      let meet = count_meet (confirms m₁ n₁) (confirms m₂ n₂) c.g_node_cnt 0 in omega arith
