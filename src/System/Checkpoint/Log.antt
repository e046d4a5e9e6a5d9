-- ===== src/System/Checkpoint/Log.antt =====
-- What a node keeps of the checkpoint messages it receives (system/worker_thread.cpp, transport/message.cpp).
use algorand.Prelude.{
  ℕ, suc, ◌+◌, ◌*◌, ◌%◌, ◌^◌, ◌≡◌, ge_of_not_ltb, ◌≤◌, Bool, true, false, ◌&&◌, not, List, [], ◌∷◌,
  ◌++◌, ◌==◌, ltb, if◌then◌else◌, arith, Bool-cases, ◌⊎◌, inl, inr, ==_refl,
}
use algorand.Transport.Messages.{CheckpointMessage}
use algorand.System.Node.{Platform, Config, Node, g_min_invalid_nodes}
use algorand.System.Checkpoint.{
  count_same, is_logged, erase_old, add_checkpoint, process_pbft_chkpt_msg,
}

module _ {R : Type 0} where
  -- the number of entries for the checkpoint from one node
  abbrev pub from_node : ℕ → ℕ → ℕ → CheckpointMessage R → Bool
  from_node index beg node s = s.index == index && (s.beg_index == beg && s.return_node == node)

  abbrev pub entries : ℕ → ℕ → ℕ → List (CheckpointMessage R) → ℕ
  entries index beg node [] = 0
  entries index beg node (s ∷ ss) =
      let rest = entries index beg node ss in if from_node index beg node s then suc rest else rest

  -- a node has no two entries for a checkpoint
  abbrev pub IsLog : List (CheckpointMessage R) → Type 0
  IsLog log = (index beg node : ℕ) → entries index beg node log ≤ 1

  entries_absent :
      (index beg node : ℕ) (m : CheckpointMessage R) (log : List (CheckpointMessage R))
      → is_logged m log ≡ false
      → from_node index beg node m ≡ true
      → entries index beg node log ≡ 0
  unfolding is_logged
  entries_absent index beg node m [] h e = ground arith
  entries_absent index beg node m (s ∷ ss) h e = ground (arith, entries_absent index beg node m ss)

  entries_snoc :
      (index beg node : ℕ) (m : CheckpointMessage R) (log : List (CheckpointMessage R))
      → entries index beg node (log ++ m ∷ [])
        ≡ entries index beg node log + (if from_node index beg node m then 1 else 0)
  entries_snoc index beg node m [] = ground arith
  entries_snoc index beg node m (s ∷ ss) = ground (arith, entries_snoc index beg node m ss)

  snoc-IsLog :
      (m : CheckpointMessage R) (log : List (CheckpointMessage R))
      → is_logged m log ≡ false
      → IsLog log
      → IsLog (log ++ m ∷ [])
  snoc-IsLog m log h ok index beg node = elim (Bool-cases (from_node index beg node m)) [
    | inl hit ↦
        let none_yet = entries_absent index beg node m log h hit in
        let sum = entries_snoc index beg node m log in ground arith
    | inr miss ↦
        let sum = entries_snoc index beg node m log in let most = ok index beg node in ground arith
  ]

  entries_erase :
      (stable index beg node : ℕ) (log : List (CheckpointMessage R))
      → entries index beg node (erase_old stable log) ≤ entries index beg node log
  unfolding erase_old
  entries_erase stable index beg node [] = ground arith
  entries_erase stable index beg node (s ∷ ss) =
      ground (arith, entries_erase stable index beg node ss)

  -- every entry is of the stable checkpoint or a later one
  abbrev pub all_recent : ℕ → List (CheckpointMessage R) → Bool
  all_recent stable [] = true
  all_recent stable (s ∷ ss) =
      let rest = all_recent stable ss in not (ltb ((s.index + 4) % 2 ^ 64) stable) && rest

  erase-recent :
      (stable : ℕ) (log : List (CheckpointMessage R))
      → all_recent stable (erase_old stable log) ≡ true
  unfolding erase_old
  erase-recent stable [] = ground arith
  erase-recent stable (s ∷ ss) = ground (arith, erase-recent stable ss)

  -- the log with the message, once
  abbrev pub with_entry :
      CheckpointMessage R → List (CheckpointMessage R) → List (CheckpointMessage R)
  with_entry m log = if is_logged m log then log else log ++ m ∷ []

  count_same-snoc :
      (m : CheckpointMessage R) (log : List (CheckpointMessage R))
      → count_same m (log ++ m ∷ []) ≡ count_same m log + 1
  unfolding count_same
  count_same-snoc m [] = ground (arith, ==_refl m.index, ==_refl m.beg_index)
  count_same-snoc m (s ∷ ss) = ground (arith, count_same-snoc m ss)

module _ (P : Platform) (c : Config) (m : CheckpointMessage P.D.Double) (n : Node P) where
  abbrev stable : ℕ
  stable = (m.index + 4) % 2 ^ 32

  abbrev log : List (CheckpointMessage P.D.Double)
  log = with_entry m n.chkpt_msgs

  outcome :
      (process_pbft_chkpt_msg P c m n ≡ (false, n))
      ⊎ ((process_pbft_chkpt_msg P c m n ≡ (false, record n { chkpt_msgs = log }))
          ⊎ ((2 * g_min_invalid_nodes c ≤ count_same m log)
              × (process_pbft_chkpt_msg P c m n ≡ (
                true,
                record n { g_last_stable_chkpt = stable; chkpt_msgs = erase_old stable log },
              ))))
  unfolding process_pbft_chkpt_msg add_checkpoint
  outcome = elim (Bool-cases (m.index == n.g_last_stable_chkpt)) [
    | inl hit ↦ inl (rw hit)
    | inr miss ↦ elim (Bool-cases (is_logged m n.chkpt_msgs)) [
      | inl old ↦ elim (Bool-cases (ltb (count_same m n.chkpt_msgs) (2 * g_min_invalid_nodes c))) [
        | inl few ↦ inl (rw (miss, old, few))
        | inr enough ↦ inr (
            inr (
              rw old (ge_of_not_ltb (count_same m n.chkpt_msgs) (2 * g_min_invalid_nodes c) enough),
              rw (miss, old, enough),
            ))
      ]
      | inr new ↦
          elim (Bool-cases (ltb (count_same m n.chkpt_msgs + 1) (2 * g_min_invalid_nodes c))) [
            | inl few ↦ inr (inl (rw (miss, new, few)))
            | inr enough ↦ inr (
                inr (
                  rw (new, count_same-snoc m n.chkpt_msgs)
                      (ge_of_not_ltb (count_same m n.chkpt_msgs + 1) (2 * g_min_invalid_nodes c)
                        enough),
                  rw (miss, new, enough),
                ))
          ]
    ]
  ]

  with_entry-IsLog : IsLog n.chkpt_msgs → IsLog log
  with_entry-IsLog ok = elim (Bool-cases (is_logged m n.chkpt_msgs)) [
    | inl old ↦ rw old ok
    | inr new ↦ rw new (snoc-IsLog m n.chkpt_msgs new ok)
  ]

  -- No handling of a checkpoint message, whatever it answers, gives a node two entries for one checkpoint.
  pub process_pbft_chkpt_msg-IsLog :
      IsLog n.chkpt_msgs → IsLog (process_pbft_chkpt_msg P c m n).1.chkpt_msgs
  process_pbft_chkpt_msg-IsLog ok index beg node = elim outcome [
    | inl e ↦ rw e (ok index beg node)
    | inr (inl e) ↦ rw e (with_entry-IsLog ok index beg node)
    | inr (inr (q, e)) ↦
        let less = entries_erase stable index beg node log in
        let most = with_entry-IsLog ok index beg node in rw e (omega arith)
  ]

  -- When the handler accepts a checkpoint, the log has with this message at least 2 f
  -- entries for it, the checkpoint becomes the stable one and only entries that are not older stay. When it does
  -- not, the stable checkpoint stays, and the log at most gains the message.
  pub process_pbft_chkpt_msg-stable :
      let (accepted, n') = process_pbft_chkpt_msg P c m n in
      ((accepted ≡ true)
        × (2 * g_min_invalid_nodes c ≤ count_same m (with_entry m n.chkpt_msgs))
        × (n'.g_last_stable_chkpt ≡ (m.index + 4) % 2 ^ 32)
        × (all_recent ((m.index + 4) % 2 ^ 32) n'.chkpt_msgs ≡ true))
      ⊎ ((accepted ≡ false)
          × (n'.g_last_stable_chkpt ≡ n.g_last_stable_chkpt)
          × ((n'.chkpt_msgs ≡ n.chkpt_msgs) ⊎ (n'.chkpt_msgs ≡ with_entry m n.chkpt_msgs)))
  process_pbft_chkpt_msg-stable = elim outcome [
    | inl e ↦ inr (rw e, rw e, inl (rw e))
    | inr (inl e) ↦ inr (rw e, rw e, inr (rw e))
    | inr (inr (q, e)) ↦ inl (rw e, q, rw e, rw (e, erase-recent stable log))
  ]
