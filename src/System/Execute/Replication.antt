-- ===== src/System/Execute/Replication.antt =====
-- Executions in sequence, against the machine (system/worker_thread.cpp: process_execute_msg).
use algorand.Prelude.{
  ℕ, zero, suc, ◌+◌, ◌-◌, ◌%◌, ◌^◌, ◌≡◌, ◌≤◌, ◌<◌, ◌≢◌, List, [], ◌∷◌, Option, some, ◌==◌, arith,
  Bool-cases, inl, inr, refl, ==_iff, sym, ◌∙◌, subst,
}
use algorand.Prelude.Int.{pos, ◌-ℤ◌, eqb_ℤ}
use algorand.Prelude.Fallible.{◌>>=◌, >>=-eq-some}
use algorand.Transport.Messages.{IndexedMessage}
use algorand.System.Node.{Platform, Config, TxnManager, Node, g_min_invalid_nodes, sub_u64}
use algorand.System.Send.{broadcast, send_checkpoint_msgs}
use algorand.System.Execute.{release_from, after_batch, process_execute_msg}
use algorand.System.Execute.Machine.{Replica, Runs, stay, run, Runs-unique, Runs-trans}
use algorand.System.Execute.Order.{
  run_range, batch_run, process_execute_msg-batch_run, process_execute_msg-waits,
  after_batch-OnlySends,
}

released_few :
    (i k b : ℕ)
    → 5 ≤ b
    → b ≤ 2 ^ 63
    → i + 1 < 2 ^ 64
    → i + 1 ≤ k
    → sub_u64 b 5 - sub_u64 (i + 1) b ≤ k - sub_u64 (i + 1) b
released_few i k b five small i_small h = ground arith

module _ (P : Platform) (c : Config) where
  open P.D use {Double}
  open P use {Request}

  run_range-Runs :
      (table table' : ℕ → TxnManager Double Request) (left i : ℕ) (db : P.Database)
      → ((k : ℕ) → i ≤ k → table' k ≡ table k)
      → Runs P table
          (record { next = i; database = db })
          (record { next = i + left; database = run_range P c table' left i db })
  run_range-Runs table table' zero i db same =
      let zero_more : i + 0 ≡ i = omega arith in rw zero_more stay
  run_range-Runs table table' (suc left) i db same =
      let next : i + suc left ≡ i + 1 + left = omega arith in
      let rest =
        run_range-Runs table table' left (i + 1) (P.run_txn (table' i) db)
          (λ k le. same k (omega arith)) in
      run (rw (next, sym (same i (omega arith))) rest)

  -- the node is at the machine's state, and has the transactions that the machine has still to run
  pub record Implements (table : ℕ → TxnManager Double Request) (n : Node P) (r : Replica P)
      : Type 0 where
    pub next : n.g_next_index ≡ r.next
    pub database : n.database ≡ r.database
    pub txn_table : (k : ℕ) → r.next ≤ k → n.txn_table k ≡ table k

  -- What the transaction table relies on: giving a manager back changes no other entry.
  abbrev pub ReleasesOne : Type 0
  ReleasesOne =
      (j k : ℕ) (table : ℕ → TxnManager Double Request)
      → k ≢ j
      → P.release_transaction_manager j table k ≡ table k

  release_from-other :
      ReleasesOne
      → (left j k : ℕ) (n : Node P) → left ≤ k - j
      → (release_from P c left j n).txn_table k ≡ n.txn_table k
  unfolding release_from
  release_from-other one zero j k n h = refl
  release_from-other one (suc left) j k n h =
      let n' = record n { txn_table = P.release_transaction_manager j n.txn_table } in
      release_from-other one left (j + 1) k n' (omega arith) ∙ one j k n.txn_table (ground arith)

  -- the managers that are given back after a batch are those of transactions that have run
  after_batch-later :
      ReleasesOne
      → (i k : ℕ) (n : Node P) → 5 ≤ c.g_batch_size
      → c.g_batch_size ≤ 2 ^ 63
      → i + 1 < 2 ^ 64
      → i + 1 ≤ k
      → (after_batch P c i n).txn_table k ≡ n.txn_table k
  unfolding after_batch send_checkpoint_msgs broadcast
  after_batch-later one i k n five small i_small h =
      elim (Bool-cases ((i + 1) % 2 ^ 64 % c.g_txn_per_chkpt == 0)) [
        | inl hit ↦ rw hit refl
        | inr miss ↦
            elim (Bool-cases
              (eqb_ℤ (n.txn_table i).commit_rsp_cnt (pos (g_min_invalid_nodes c) -ℤ pos 1))) [
                | inl last ↦
                    let from = sub_u64 (i + 1) c.g_batch_size in
                    let few = released_few i k c.g_batch_size five small i_small h in
                    rw (miss, last)
                      (release_from-other one (sub_u64 c.g_batch_size 5 - from) from k n few)
                | inr more ↦ rw (miss, more) refl
              ]
      ]

  batch_run-Runs :
      (table : ℕ → TxnManager Double Request) (m : IndexedMessage Double) (n : Node P)
      (r : Replica P)
      → m.index ≤ m.end_index + 1
      → n.g_next_index ≡ m.index
      → Implements table n r
      → Runs P table r (record { next = m.end_index + 2; database = (batch_run P c m n).database })
  batch_run-Runs table m n r le turn imp =
      let left = m.end_index + 2 - m.index in
      let end : r.next + left ≡ m.end_index + 2 = (let a = imp.next in omega arith) in
      let runs = run_range-Runs table n.txn_table left r.next r.database imp.txn_table in
      let same : run_range P c n.txn_table left m.index n.database
          ≡ run_range P c n.txn_table left r.next r.database =
        rw (sym turn, imp.next, imp.database) refl in
      rw same (
        subst
          (λ k.
            Runs P table r
              (record { next = k; database = run_range P c n.txn_table left r.next r.database }))
          end runs)

  process_execute_msg-step :
      ReleasesOne
      → (table : ℕ → TxnManager Double Request) (m : IndexedMessage Double) (n n' : Node P)
        (r : Replica P)
      → 5 ≤ c.g_batch_size
      → c.g_batch_size ≤ 2 ^ 63
      → m.index ≤ m.end_index + 1
      → m.end_index + 2 < 2 ^ 64
      → Implements table n r
      → process_execute_msg P c m n ≡ some n'
      → (r' : Replica P) × Runs P table r r' × Implements table n' r'
  process_execute_msg-step one table m n n' r five small le m_small imp e =
      elim (Bool-cases (m.index == n.g_next_index)) [
        | inr late ↦
            let waits =
              process_execute_msg-waits P c m n (ground (arith, ==_iff m.index n.g_next_index)) in
            absurd (ground arith)
        | inl now ↦
            let turn : n.g_next_index ≡ m.index = ground (arith, ==_iff m.index n.g_next_index) in
            let n₂ = batch_run P c m n in
            let done = process_execute_msg-batch_run P c m n le m_small turn in
            let same : n' ≡ after_batch P c (m.end_index + 1) n₂ = ground arith in
            let (g, d, _, _, _) = after_batch-OnlySends P c (m.end_index + 1) n₂ in
            (
              record { next = m.end_index + 2; database = n₂.database },
              batch_run-Runs table m n r le turn imp,
              rw same (record {
                next = g;
                database = d;
                txn_table = λ k later.
                    after_batch-later one (m.end_index + 1) k n₂ five small (omega arith)
                      (omega arith)
                    ∙ imp.txn_table k (omega arith);
              }),
            )
      ]

  -- the messages that a worker executes, in its order
  unfoldable pub execute_all : List (IndexedMessage Double) → Node P → Option (Node P)
  execute_all [] n = some n
  execute_all (m ∷ ms) n = do n' ← process_execute_msg P c m n; execute_all ms n'

  -- each message is of a batch, with numbers below 2 ^ 64 - 1
  abbrev pub AreBatches : List (IndexedMessage Double) → Type 0
  AreBatches [] = Unit
  AreBatches (m ∷ ms) = (m.index ≤ m.end_index + 1) × (m.end_index + 2 < 2 ^ 64) × AreBatches ms

  -- The execution of any sequence of batches by a worker refines the machine: when the node is at the machine's state
  -- and has its transactions, and all the messages are executed without a failed assert, the machine reaches, by
  -- running the transactions one after the other, a state at which the node then is, with the
  -- transactions from there on. Giving a manager back must change no other entry of the table, and g_batch_size be
  -- from 5 to 2 ^ 63.
  pub execute_all-Runs :
      ReleasesOne
      → (table : ℕ → TxnManager Double Request) (ms : List (IndexedMessage Double)) (n n' : Node P)
        (r : Replica P)
      → 5 ≤ c.g_batch_size
      → c.g_batch_size ≤ 2 ^ 63
      → AreBatches ms
      → Implements table n r
      → execute_all ms n ≡ some n'
      → (r' : Replica P) × Runs P table r r' × Implements table n' r'
  unfolding execute_all
  execute_all-Runs one table [] n n' r five small b imp e =
      let same : n ≡ n' = ground arith in (r, stay, subst (λ k. Implements table k r) same imp)
  execute_all-Runs one table (m ∷ ms) n n' r five small (le, m_small, b) imp e =
      let (n₁, h, rest) = >>=-eq-some (process_execute_msg P c m n) (execute_all ms) e in
      let (r₁, runs, imp₁) =
        process_execute_msg-step one table m n n₁ r five small le m_small imp h in
      let (r', runs', imp') = execute_all-Runs one table ms n₁ n' r₁ five small b imp₁ rest in
      (r', Runs-trans P table runs runs', imp')

  -- Two nodes that start at one state of the machine and with its transactions, and execute batches, however cut, until
  -- their next turns are of one number, have the same database, under the same conditions on the table's
  -- releases and on g_batch_size.
  pub execute_all-agree :
      ReleasesOne
      → (table : ℕ → TxnManager Double Request) (ms ms' : List (IndexedMessage Double))
        (n₁ n₂ n₁' n₂' : Node P) (r : Replica P)
      → 5 ≤ c.g_batch_size
      → c.g_batch_size ≤ 2 ^ 63
      → AreBatches ms
      → AreBatches ms'
      → Implements table n₁ r
      → Implements table n₂ r
      → execute_all ms n₁ ≡ some n₁'
      → execute_all ms' n₂ ≡ some n₂'
      → n₁'.g_next_index ≡ n₂'.g_next_index
      → n₁'.database ≡ n₂'.database
  execute_all-agree one table ms ms' n₁ n₂ n₁' n₂' r five small b b' imp₁ imp₂ e₁ e₂ same =
      let (a₁, runs₁, at₁) = execute_all-Runs one table ms n₁ n₁' r five small b imp₁ e₁ in
      let (a₂, runs₂, at₂) = execute_all-Runs one table ms' n₂ n₂' r five small b' imp₂ e₂ in
      let next = sym at₁.next ∙ same ∙ at₂.next in
      at₁.database ∙ Runs-unique P table runs₁ runs₂ next ∙ sym at₂.database
