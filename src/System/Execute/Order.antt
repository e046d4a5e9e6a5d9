-- ===== src/System/Execute/Order.antt =====
-- The order in which batches are executed (system/worker_thread.cpp:
-- process_execute_msg).
use algorand.Prelude.{
  ℕ, zero, suc, ◌+◌, ◌-◌, ◌%◌, ◌^◌, ◌≡◌, ◌≤◌, ◌<◌, ◌≢◌, true, false, List, [], ◌∷◌, ◌++◌, map, All,
  Option, none, some, ◌==◌, ltb, arith, Bool-cases, inl, inr, append_nil, append_snoc, ==_refl,
  ==_iff, refl, subst, lt→ltb,
}
use algorand.Prelude.Fallible.{◌>>=◌}
use algorand.Prelude.Int.{pos, ◌-ℤ◌, eqb_ℤ}
use algorand.Transport.Messages.{IndexedMessage, CheckpointMessage, ClientResponseMessage}
use algorand.System.Node.{
  Platform, Config, TxnManager, Packet, response_packet, chkpt_packet, Node, g_min_invalid_nodes,
  uint64_max, sub_u64,
}
use algorand.System.Send.{broadcast, send_checkpoint_msgs}
use algorand.System.Execute.{
  response_from_txn, execute_one, execute_loop, release_from, after_batch, process_execute_msg,
}

-- the numbers from i on, `left` of them
abbrev pub range : ℕ → ℕ → List ℕ
range zero i = []
range (suc left) i = i ∷ range left (i + 1)

module _ (P : Platform) (c : Config) where
  open P.D use {Double}
  open P use {Request}

  -- the database after the transactions from i on, `left` of them, one after the other
  abbrev pub run_range : (ℕ → TxnManager Double Request) → ℕ → ℕ → P.Database → P.Database
  run_range table zero i db = db
  run_range table (suc left) i db = run_range table left (i + 1) (P.run_txn (table i) db)

  abbrev pub start_times : (ℕ → TxnManager Double Request) → ℕ → ℕ → List ℕ
  start_times table left i = map (λ k. (table k).client_startts) (range left i)

  execute_loop-runs :
      (left i : ℕ) (n : Node P) (r : ClientResponseMessage Double)
      → i + left < 2 ^ 64
      → execute_loop P c left i (record n { g_next_index = i }, r)
        ≡ some (
          record n { g_next_index = i + left; database = run_range n.txn_table left i n.database },
          record r {
            index = r.index ++ range left i;
            client_ts = r.client_ts ++ start_times n.txn_table left i;
          },
        )
  unfolding execute_loop execute_one
  execute_loop-runs zero i n r h =
      let zero_more : i + 0 ≡ i = omega arith in
      rw (zero_more, append_nil r.index, append_nil r.client_ts)
  execute_loop-runs (suc left) i n r h =
      let small : (i + 1) % 2 ^ 64 ≡ i + 1 = ground arith in
      let next : i + suc left ≡ i + 1 + left = omega arith in
      rw (
        ==_refl i,
        small,
        execute_loop-runs left (i + 1)
            (record n { database = P.run_txn (n.txn_table i) n.database })
            (record r {
              index = r.index ++ i ∷ [];
              client_ts = r.client_ts ++ (n.txn_table i).client_startts ∷ [];
            })
            (omega arith),
        append_snoc r.index (range left (i + 1)) i,
        append_snoc r.client_ts (start_times n.txn_table left (i + 1))
            (n.txn_table i).client_startts,
        next,
      )

  execute_loop-turn :
      (left i : ℕ) (n : Node P) (r : ClientResponseMessage Double)
      → i + left < 2 ^ 64
      → n.g_next_index ≡ i
      → execute_loop P c left i (n, r)
        ≡ some (
          record n { g_next_index = i + left; database = run_range n.txn_table left i n.database },
          record r {
            index = r.index ++ range left i;
            client_ts = r.client_ts ++ start_times n.txn_table left i;
          },
        )
  execute_loop-turn left i n r h turn =
      subst
        (λ k.
          execute_loop P c left k (n, r)
          ≡ some (
            record n {
              g_next_index = k + left;
              database = run_range n.txn_table left k n.database;
            },
            record r {
              index = r.index ++ range left k;
              client_ts = r.client_ts ++ start_times n.txn_table left k;
            },
          ))
        turn (execute_loop-runs left n.g_next_index n r (omega arith))

  range_snoc : (left i : ℕ) → range left i ++ (i + left) ∷ [] ≡ range (suc left) i
  range_snoc zero i = let zero_more : i + 0 ≡ i = omega arith in rw zero_more
  range_snoc (suc left) i =
      let next : i + suc left ≡ i + 1 + left = omega arith in rw (next, range_snoc left (i + 1))

  run_range_snoc :
      (table : ℕ → TxnManager Double Request) (left i : ℕ) (db : P.Database)
      → P.run_txn (table (i + left)) (run_range table left i db) ≡ run_range table (suc left) i db
  run_range_snoc table zero i db = let zero_more : i + 0 ≡ i = omega arith in rw zero_more
  run_range_snoc table (suc left) i db =
      let next : i + suc left ≡ i + 1 + left = omega arith in
      rw (next, run_range_snoc table left (i + 1) (P.run_txn (table i) db))

  release_from_lem :
      (left j : ℕ) (n : Node P)
      → release_from P c left j n ≡ record n { txn_table = (release_from P c left j n).txn_table }
  unfolding release_from
  release_from_lem zero j n = refl
  release_from_lem (suc left) j n =
      release_from_lem left (j + 1)
        (record n { txn_table = P.release_transaction_manager j n.txn_table })

  -- what comes after a batch only sends messages and gives transaction managers back
  abbrev pub IsCheckpoint : ℕ × Packet Double Request → Type 0
  IsCheckpoint s = (k : CheckpointMessage Double) × (s.1 ≡ chkpt_packet k)

  checkpoints-IsCheckpoint :
      (k : CheckpointMessage Double) (ids : List ℕ)
      → All IsCheckpoint (map (λ i. (i, chkpt_packet k)) ids)
  checkpoints-IsCheckpoint k [] = tt
  checkpoints-IsCheckpoint k (i ∷ ids) = ((k, refl), checkpoints-IsCheckpoint k ids)

  abbrev pub OnlySends : Node P → Node P → Type 0
  OnlySends n n' =
      (n'.g_next_index ≡ n.g_next_index)
      × (n'.database ≡ n.database)
      × (chk : List (ℕ × Packet Double Request)) × (n'.sent ≡ chk ++ n.sent)
      × All IsCheckpoint chk

  pub after_batch-OnlySends : (i : ℕ) (n : Node P) → OnlySends n (after_batch P c i n)
  unfolding after_batch send_checkpoint_msgs broadcast
  after_batch-OnlySends i n = elim (Bool-cases ((i + 1) % 2 ^ 64 % c.g_txn_per_chkpt == 0)) [
    | inl hit ↦ rw hit (refl, refl, _, refl, checkpoints-IsCheckpoint _ _)
    | inr miss ↦
        elim (Bool-cases
          (eqb_ℤ (n.txn_table i).commit_rsp_cnt (pos (g_min_invalid_nodes c) -ℤ pos 1))) [
            | inl last ↦
                let from = sub_u64 (i + 1) c.g_batch_size in
                rw (miss, last, release_from_lem (sub_u64 c.g_batch_size 5 - from) from n)
                  (refl, refl, [], refl, tt)
            | inr more ↦ rw (miss, more) (refl, refl, [], refl, tt)
          ]
  ]

  -- the response to the batch, and the node when the batch has run
  abbrev pub batch_response : IndexedMessage Double → Node P → ClientResponseMessage Double
  batch_response m n =
      let left = m.end_index + 1 - m.index in
      record (response_from_txn P c n (n.txn_table m.txn_id)) {
        index = range left m.index ++ (m.end_index + 1) ∷ [];
        client_ts =
            start_times n.txn_table left m.index
            ++ (n.txn_table (m.end_index + 1)).client_startts ∷ [];
      }

  abbrev pub batch_run : IndexedMessage Double → Node P → Node P
  batch_run m n = record n {
    g_next_index = m.end_index + 2;
    database = run_range n.txn_table (m.end_index + 2 - m.index) m.index n.database;
    sent =
        ((n.txn_table (m.end_index + 1)).client_id, response_packet (batch_response m n)) ∷ n.sent;
  }

  pub process_execute_msg-batch_run :
      (m : IndexedMessage Double) (n : Node P)
      → m.index ≤ m.end_index + 1
      → m.end_index + 2 < 2 ^ 64
      → n.g_next_index ≡ m.index
      → process_execute_msg P c m n ≡ some (after_batch P c (m.end_index + 1) (batch_run m n))
  unfolding process_execute_msg execute_one
  process_execute_msg-batch_run m n le small turn =
      let left = m.end_index + 1 - m.index in
      let total : m.end_index + 2 - m.index ≡ suc left = omega arith in
      let last : m.index + left ≡ m.end_index + 1 = omega arith in
      let next : (m.end_index + 1 + 1) % 2 ^ 64 ≡ m.end_index + 2 = ground arith in
      let r = response_from_txn P c n (n.txn_table m.txn_id) in
      let loop = execute_loop-turn left m.index n r (omega arith) turn in
      let in_range : ltb m.end_index uint64_max ≡ true =
        lt→ltb m.end_index uint64_max (omega arith) in
      let db =
        subst
          (λ k.
            P.run_txn (n.txn_table k) (run_range n.txn_table left m.index n.database)
            ≡ run_range n.txn_table (suc left) m.index n.database)
          last (run_range_snoc n.txn_table left m.index n.database) in
      rw (in_range, loop, last, ==_refl (m.end_index + 1), next, total, db)

  -- On its turn, a batch of transactions from `index` to `end_index + 1`, with numbers below 2 ^ 64 -
  -- 1, is executed whole: each of its transactions runs once, in the order of the numbers; the next
  -- turn is that of the transaction after it; and one response, which lists the numbers of the batch
  -- in order, is sent to the client of the last one. All that is sent after it are checkpoint messages.
  pub process_execute_msg-runs :
      (m : IndexedMessage Double) (n : Node P)
      → m.index ≤ m.end_index + 1
      → m.end_index + 2 < 2 ^ 64
      → n.g_next_index ≡ m.index
      → (n' : Node P) × (process_execute_msg P c m n ≡ some n')
        × (n'.g_next_index ≡ m.end_index + 2)
        × (n'.database ≡ run_range n.txn_table (m.end_index + 2 - m.index) m.index n.database)
        × (chk : List (ℕ × Packet Double Request)) × (crsp : ClientResponseMessage Double)
        × (n'.sent
            ≡ chk ++ ((n.txn_table (m.end_index + 1)).client_id, response_packet crsp) ∷ n.sent)
        × (crsp.index ≡ range (m.end_index + 2 - m.index) m.index)
        × All IsCheckpoint chk
  process_execute_msg-runs m n le small turn =
      let left = m.end_index + 1 - m.index in
      let total : m.end_index + 2 - m.index ≡ suc left = omega arith in
      let last : m.index + left ≡ m.end_index + 1 = omega arith in
      let ids =
        subst (λ k. range left m.index ++ k ∷ [] ≡ range (suc left) m.index) last
          (range_snoc left m.index) in
      let (g, d, chk, s, chks) = after_batch-OnlySends (m.end_index + 1) (batch_run m n) in
      (
        after_batch P c (m.end_index + 1) (batch_run m n),
        process_execute_msg-batch_run m n le small turn,
        g,
        d,
        chk,
        batch_response m n,
        s,
        rw (ids, total),
        chks,
      )

  loop_waits :
      {B : Type 0} (left i : ℕ) (n : Node P) (r : ClientResponseMessage Double)
      (k : Node P × ClientResponseMessage Double → Option B)
      → (i == n.g_next_index) ≡ false
      → (execute_loop P c left i (n, r) >>= (λ s. execute_one P c (i + left) s >>= k)) ≡ none
  unfolding execute_loop execute_one
  loop_waits zero i n r k h = let zero_more : i + 0 ≡ i = omega arith in rw (zero_more, h)
  loop_waits (suc left) i n r k h = rw h

  -- the assert on the turn
  pub process_execute_msg-waits :
      (m : IndexedMessage Double) (n : Node P)
      → m.index ≢ n.g_next_index
      → process_execute_msg P c m n ≡ none
  unfolding process_execute_msg
  process_execute_msg-waits m n turn = elim (Bool-cases (ltb m.end_index uint64_max)) [
    | inl in_range ↦
        let late : (m.index == n.g_next_index) ≡ false =
          ground (arith, ==_iff m.index n.g_next_index) in
        rw in_range (
          loop_waits (m.end_index + 1 - m.index) m.index n
            (response_from_txn P c n (n.txn_table m.txn_id)) _ late)
    | inr out ↦ rw out
  ]
