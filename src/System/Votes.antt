-- ===== src/System/Votes.antt =====
-- system/worker_thread.cpp: how the handlers of batches and of prepare messages check and count the vote in
-- a message. Both also set `g_dp` and the value to vote for; a wrong seed is only reported.
pub mod Guards
use algorand.Prelude.{zero, suc, Bool, true, false, Option, none, some, if◌then◌else◌}
use algorand.Prelude.Fallible.{◌>>=◌}
use algorand.Prelude.Int.{ℤ, pos, negsuc}
use algorand.Blockchain.Algorand.{Algorand, DataPackage}
use algorand.Blockchain.Sortition.{verify}
use algorand.Blockchain.Votes.{count_votes}
use algorand.System.Node.{Platform, Node}

-- `votes != -1`
abbrev pub not_rejected : ℤ → Bool
not_rejected (pos n) = true
not_rejected (negsuc zero) = false
not_rejected (negsuc (suc n)) = true

-- `if (votes)`
abbrev pub nonzero : ℤ → Bool
nonzero (pos zero) = false
nonzero (pos (suc n)) = true
nonzero (negsuc n) = true

module _ (P : Platform) where
  check_vote : (ℤ → Bool) → DataPackage → Node P → Option (Node P)
  check_vote accepts dp n = do
    (a, votes) ← verify P.D P.O P.fuel dp (pos 20) n.g_algorand.sum_w n.g_algorand
    some (record n {
      g_dp = dp;
      m_dp = record n.m_dp { value = dp.value };
      g_algorand = if accepts votes then (count_votes P.D P.O P.agreement (pos 20) dp a).0 else a;
    })

  -- process_batch
  unfoldable pub count_batch_vote : DataPackage → Node P → Option (Node P)
  unfolding check_vote
  count_batch_vote dp n = check_vote not_rejected dp n

  -- process_pbft_prep_msg
  unfoldable pub count_prep_vote : DataPackage → Node P → Option (Node P)
  unfolding check_vote
  count_prep_vote dp n = check_vote nonzero dp n
