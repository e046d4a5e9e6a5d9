-- ===== src/System/Checkpoint.antt =====
-- system/worker_thread.cpp: process_pbft_chkpt_msg; transport/message.cpp: CheckpointMessage::addAndValidate.
-- Without USE_CRYPTO its `validate` accepts every message. Indices have 64 bits, g_last_stable_chkpt has 32.
pub mod Log
use algorand.Prelude.{
  ℕ, zero, suc, ◌+◌, ◌*◌, ◌%◌, ◌^◌, ◌≡◌, Bool, true, false, ◌&&◌, List, [], ◌∷◌, ◌++◌, ◌==◌, ltb,
  if◌then◌else◌,
}
use algorand.Transport.Messages.{CheckpointMessage}
use algorand.System.Node.{Platform, Config, Node, g_min_invalid_nodes}

module _ {R : Type 0} where
  -- the same checkpoint
  abbrev pub same_checkpoint : CheckpointMessage R → CheckpointMessage R → Bool
  same_checkpoint m s = s.index == m.index && s.beg_index == m.beg_index

  -- `k` after the loop over the log
  pub count_same : CheckpointMessage R → List (CheckpointMessage R) → ℕ
  count_same m [] = 0
  count_same m (s ∷ ss) =
      let rest = count_same m ss in if same_checkpoint m s then suc rest else rest

  -- whether the loop sets `add` to false
  pub is_logged : CheckpointMessage R → List (CheckpointMessage R) → Bool
  is_logged m [] = false
  is_logged m (s ∷ ss) =
      let rest = is_logged m ss in
      if same_checkpoint m s && s.return_node == m.return_node then true else rest

  -- the loop that erases
  pub erase_old : ℕ → List (CheckpointMessage R) → List (CheckpointMessage R)
  erase_old stable [] = []
  erase_old stable (s ∷ ss) =
      let rest = erase_old stable ss in
      if ltb ((s.index + 4) % 2 ^ 64) stable then rest else s ∷ rest

module _ (P : Platform) (c : Config) where
  open P.D use {Double}

  unfoldable pub add_checkpoint : CheckpointMessage Double → Node P → Bool × Node P
  unfolding is_logged count_same
  add_checkpoint m n =
      if m.index == n.g_last_stable_chkpt
      then (false, n)
      else (let old = is_logged m n.chkpt_msgs in
          let k = count_same m n.chkpt_msgs in
          if old
          then (if ltb k (2 * g_min_invalid_nodes c) then (false, n) else (true, n))
          else (let n' = record n { chkpt_msgs = n.chkpt_msgs ++ m ∷ [] } in
              if ltb (k + 1) (2 * g_min_invalid_nodes c) then (false, n') else (true, n')))

  abbrev forget_old : ℕ → Node P → Node P
  forget_old stable n = record n {
    g_last_stable_chkpt = stable;
    chkpt_msgs = erase_old stable n.chkpt_msgs;
  }

  -- the result is whether the handler returns RCOK
  unfoldable pub process_pbft_chkpt_msg : CheckpointMessage Double → Node P → Bool × Node P
  unfolding add_checkpoint erase_old
  process_pbft_chkpt_msg m n =
      let (valid, n') = add_checkpoint m n in
      if valid then (true, forget_old ((m.index + 4) % 2 ^ 32) n') else (false, n')
