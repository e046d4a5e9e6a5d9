-- ===== src/Blockchain/Binomial.antt =====
-- blockchain/Algorand.cpp: nCr, binary_distribution and algorand_sum. The loop counters and the
-- arguments n, r, k are integers held in a `double`; here they are integers, and what is rounded is
-- computed by `Doubles`.
pub mod Monotone
use algorand.Prelude.{ℕ, zero, suc, ◌+◌, ◌*◌, ◌≡◌, if◌then◌else◌}
use algorand.Prelude.Int.{ℤ, pos, pos_part, ◌+ℤ◌, ◌-ℤ◌, ltb_ℤ}
use algorand.Blockchain.Double.{Doubles}

module _ (D : Doubles) where
  open D use {Double, of_ℤ, add, sub, mul, div, pow}

  -- `for (i = 1; i <= r; i++) { answer *= (n - r + i); answer /= i; }`, with the rounds left
  unfoldable pub n_cr_loop : ℕ → ℕ → ℤ → Double → Double
  n_cr_loop zero i n_r answer = answer
  n_cr_loop (suc rounds) i n_r answer =
      n_cr_loop rounds (i + 1) n_r (div (mul answer (of_ℤ (n_r +ℤ pos i))) (of_ℤ (pos i)))

  -- `r > n / 2` is `n < 2 r`; for a negative r the loop has no round
  unfoldable pub n_cr : ℤ → ℤ → Double
  n_cr n r =
      let r' = if ltb_ℤ n (r +ℤ r) then n -ℤ r else r in
      n_cr_loop (pos_part r') 1 (n -ℤ r') (of_ℤ (pos 1))

  unfoldable pub binary_distribution : ℤ → ℤ → Double → Double
  binary_distribution k n p =
      mul (mul (n_cr n k) (pow p (of_ℤ k))) (pow (sub (of_ℤ (pos 1)) p) (sub (of_ℤ n) (of_ℤ k)))

  unfoldable pub sum_loop : ℕ → ℕ → ℤ → Double → Double → Double
  sum_loop zero i w p sum = sum
  sum_loop (suc rounds) i w p sum =
      sum_loop rounds (i + 1) w p (add sum (binary_distribution (pos i) w p))

  -- `algorand_sum(0, end, w, p)`: both callers start at 0
  unfoldable pub algorand_sum : ℕ → ℤ → Double → Double
  algorand_sum end w p = sum_loop (end + 1) 0 w p (of_ℤ (pos 0))
