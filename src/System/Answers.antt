-- ===== src/System/Answers.antt =====
-- The answers that a transaction waits for (system/txn.cpp: received_response, waiting_for_response; system/global.h: RC).
use algorand.Prelude.{
  ℕ, suc, ◌+◌, ◌≡◌, Bool, true, false, ◌||◌, if◌then◌else◌, ltb, Option, some, none, List, [], ◌∷◌,
  length, arith, refl,
}
use algorand.Prelude.Fallible.{◌>>=◌}
use algorand.Prelude.Int.{ℤ, pos, ◌-ℤ◌, ltb_ℤ}

pub data Rc : Type 0 where
  rcok commit abort wait wait_rem error finish no_rc : Rc

-- rsp_cnt of a TxnManager and rc of its Transaction
pub record Awaiting : Type 0 where
  pub rsp_cnt : ℤ
  pub rc : Rc

abbrev pub is_rcok : Rc → Bool
is_rcok rcok = true
is_rcok _ = false

abbrev pub is_abort : Rc → Bool
is_abort abort = true
is_abort _ = false

-- `none` is the failed assert
unfoldable pub received_response : Rc → Awaiting → Option Awaiting
received_response rc s =
    if is_rcok s.rc || is_abort s.rc
    then some (record { rsp_cnt = s.rsp_cnt -ℤ pos 1; rc = if is_rcok s.rc then rc else s.rc })
    else none

unfoldable pub waiting_for_response : Awaiting → Bool
waiting_for_response s = ltb_ℤ (pos 0) s.rsp_cnt

-- one response after the other
unfoldable pub receive_all : List Rc → Awaiting → Option Awaiting
receive_all [] s = some s
receive_all (rc ∷ rcs) s = received_response rc s >>= receive_all rcs

-- RCOK for true and Abort for false
abbrev pub verdict : Bool → Rc
verdict true = rcok
verdict false = abort

abbrev pub verdicts : List Bool → List Rc
verdicts [] = []
verdicts (b ∷ bs) = verdict b ∷ verdicts bs

abbrev pub all_true : List Bool → Bool
all_true [] = true
all_true (true ∷ bs) = all_true bs
all_true (false ∷ bs) = false

one_less : (m k : ℕ) → pos (suc m + k) -ℤ pos 1 ≡ pos (m + k)
unfolding ◌-ℤ◌
one_less m k = ground arith

none_left : (k : ℕ) → 0 + k ≡ k
none_left k = omega arith

receive-aborted :
    (bs : List Bool) (k : ℕ)
    → receive_all (verdicts bs) (record { rsp_cnt = pos (length bs + k); rc = abort })
      ≡ some (record { rsp_cnt = pos k; rc = abort })
unfolding receive_all received_response
receive-aborted [] k = rw (none_left k) refl
receive-aborted (b ∷ bs) k = rw (one_less (length bs) k) (receive-aborted bs k)

receive_all-verdicts :
    (bs : List Bool) (k : ℕ)
    → receive_all (verdicts bs) (record { rsp_cnt = pos (length bs + k); rc = rcok })
      ≡ some (record { rsp_cnt = pos k; rc = verdict (all_true bs) })
unfolding receive_all received_response
receive_all-verdicts [] k = rw (none_left k) refl
receive_all-verdicts (true ∷ bs) k = rw (one_less (length bs) k) (receive_all-verdicts bs k)
receive_all-verdicts (false ∷ bs) k = rw (one_less (length bs) k) (receive-aborted bs k)

-- When a transaction that awaits at least as many answers as there are, with RCOK so far, receives answers that are RCOK or
-- Abort, no assert fails; its code is then RCOK if all answers were, and Abort otherwise; and it is still waiting exactly when
-- it awaited more answers.
pub receive_all-outcome :
    (bs : List Bool) (k : ℕ)
    → (s : Awaiting) × (receive_all
          (verdicts bs)
          (record { rsp_cnt = pos (length bs + k); rc = rcok })
        ≡ some s)
      × (s.rc ≡ verdict (all_true bs))
      × (waiting_for_response s ≡ ltb 0 k)
unfolding waiting_for_response
receive_all-outcome bs k = (
  record { rsp_cnt = pos k; rc = verdict (all_true bs) },
  receive_all-verdicts bs k,
  refl,
  ground arith,
)
