-- ===== src/System/Commit/Progress.antt =====
-- When a transaction does become committed (system/worker_thread.cpp: committed_local).
use algorand.Prelude.{
  ℕ, zero, suc, ◌+◌, ◌*◌, ◌%◌, ◌≤◌, ◌<◌, ◌≡◌, true, false, ◌&&◌, some, ◌==◌, ltb, arith, Bool-cases,
  inl, inr, text_eq, refl,
}
use algorand.Prelude.Fallible.{◌>>=◌}
use algorand.Prelude.Counting.{count}
use algorand.Transport.Messages.{IndexedMessage}
use algorand.System.Node.{Platform, Config, Node, index_size, g_min_invalid_nodes}
use algorand.System.Prepare.{set_txn}
use algorand.System.Prepare.Quorum.{set_txn_lem}
use algorand.System.Commit.{count_commits, committed_local}
use algorand.System.Commit.Quorum.{prepare_of, confirms}

module _ (P : Platform) (c : Config) where
  -- of the nodes below g_node_cnt, each one's commit message with the index of the prepare message agrees with it
  abbrev pub CommitsAgree : IndexedMessage P.D.Double → Node P → Type 0
  CommitsAgree m n =
      (i : ℕ)
      → i < c.g_node_cnt
      → ((n.comm_store (m.txn_id % index_size c) i).index == (prepare_of P c m n).index) ≡ true
      → confirms P c m n i ≡ true

  count_commits-counts :
      (m : IndexedMessage P.D.Double) (n : Node P)
      → CommitsAgree m n
      → (left i k : ℕ) → i + left ≤ c.g_node_cnt
      → count_commits P c n (m.txn_id % index_size c) (prepare_of P c m n) left i k
        ≡ some (k + count (confirms P c m n) left i)
  unfolding count_commits
  count_commits-counts m n agree zero i k h =
      let zero_more : k + 0 ≡ k = omega arith in rw zero_more
  count_commits-counts m n agree (suc left) i k h =
      elim (Bool-cases
        ((n.comm_store (m.txn_id % index_size c) i).index == (prepare_of P c m n).index)) [
          | inl hit ↦
              let s = agree i (omega arith) hit in
              let rest = count_commits-counts m n agree left (i + 1) (k + 1) (omega arith) in
              let r = n.comm_store (m.txn_id % index_size c) i in
              let p = prepare_of P c m n in
              let same : (text_eq p.hash r.hash && (p.view == r.view && p.end_index == r.end_index))
                  ≡ true =
                ground arith in
              let more : k + 1 + count (confirms P c m n) left (i + 1)
                  ≡ k + suc (count (confirms P c m n) left (i + 1)) =
                omega arith in
              rw (hit, same, rest, more) refl
          | inr miss ↦
              let rest = count_commits-counts m n agree left (i + 1) k (omega arith) in
              rw (miss, rest) refl
        ]

  -- Enough commit messages make a prepared transaction committed: when the commit messages in the log with the index of the
  -- prepare message, from nodes below g_node_cnt, agree with it, and at least 2 f + 1 nodes' do, then
  -- `committed_local` returns true, so that its asserts hold, and the flag is set.
  pub committed_local-reached :
      (m : IndexedMessage P.D.Double) (n : Node P)
      → (n.txn_table m.txn_id).prepared ≡ true
      → CommitsAgree m n
      → 2 * g_min_invalid_nodes c + 1 ≤ count (confirms P c m n) c.g_node_cnt 0
      → (n' : Node P) × (committed_local P c m n ≡ some (true, n'))
        × ((n'.txn_table m.txn_id).committed_local ≡ true)
  unfolding committed_local
  committed_local-reached m n ready agree enough =
      let txn = n.txn_table m.txn_id in
      let k = count (confirms P c m n) c.g_node_cnt 0 in
      let counted = count_commits-counts m n agree c.g_node_cnt 0 0 (omega arith) in
      let no_less : ltb (0 + k) (2 * g_min_invalid_nodes c + 1) ≡ false = ground arith in
      (
        set_txn P c m.txn_id (record txn { committed_local = true }) n,
        rw (ready, counted, ◌>>=◌, no_less) refl,
        rw (set_txn_lem P c n m.txn_id (record txn { committed_local = true })) refl,
      )
