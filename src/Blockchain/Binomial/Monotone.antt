-- ===== src/Blockchain/Binomial/Monotone.antt =====
-- The partial sums of the binomial distribution, as long as they are numbers, (blockchain/Algorand.cpp).
use native.Mathlib.Nat.{add-zero}
use algorand.Prelude.{
  ℕ, zero, suc, ◌+◌, ◌≡◌, ◌≤◌, subst, refl, true, inl, inr, if◌then◌else◌, ap, ◌∙◌, Bool-cases,
  ge_of_not_ltb, arith,
}
use algorand.Prelude.Int.{ℤ, pos, negsuc, ◌+ℤ◌, ◌-ℤ◌, ◌≤ℤ◌, ltb_ℤ, int_laws}
use algorand.Blockchain.Double.{Doubles, IsNonneg, IsNumber, NonnegLaws}
use algorand.Blockchain.Binomial.{n_cr_loop, n_cr, binary_distribution, sum_loop, algorand_sum}

module _ (D : Doubles) (L : NonnegLaws D) where
  open D use {Double, of_ℤ, add, mul, div, le}

  of_ℤ-IsNonneg : (z : ℤ) → pos 0 ≤ℤ z → IsNonneg D (of_ℤ z)
  of_ℤ-IsNonneg (pos n) h = L.of_nonneg n
  of_ℤ-IsNonneg (negsuc n) h = absurd (omega arith)

  n_cr_loop-IsNumber :
      (rounds i : ℕ) (n_r : ℤ) (answer : Double)
      → IsNumber D (n_cr_loop D rounds i n_r answer)
      → IsNumber D answer
  unfolding n_cr_loop
  n_cr_loop-IsNumber zero i n_r answer h = h
  n_cr_loop-IsNumber (suc rounds) i n_r answer h =
      L.mul_left answer _ (L.div_left _ _ (n_cr_loop-IsNumber rounds (i + 1) n_r _ h))

  n_cr_loop-IsNonneg :
      (rounds i : ℕ) (n_r : ℤ) (answer : Double)
      → pos 0 ≤ℤ n_r
      → 1 ≤ i
      → IsNonneg D answer
      → IsNumber D (n_cr_loop D rounds i n_r answer)
      → IsNonneg D (n_cr_loop D rounds i n_r answer)
  unfolding n_cr_loop
  n_cr_loop-IsNonneg zero i n_r answer z one h v = h
  n_cr_loop-IsNonneg (suc rounds) i n_r answer z one h v =
      let quotient = n_cr_loop-IsNumber rounds (i + 1) n_r _ v in
      let factor = of_ℤ-IsNonneg (n_r +ℤ pos i) (omega int_laws) in
      let product = L.mul_nonneg answer _ h factor (L.div_left _ _ quotient) in
      n_cr_loop-IsNonneg rounds (i + 1) n_r _ z (omega arith)
        (L.div_nonneg _ _ product (L.of_pos i one) quotient) v

  -- for 0 ≤ k the base n - r of the loop is not negative, whichever way the symmetry is used
  n_cr_base :
      (n : ℤ) (k : ℕ) → pos 0 ≤ℤ (n -ℤ (if ltb_ℤ n (pos k +ℤ pos k) then n -ℤ pos k else pos k))
  n_cr_base n k = elim (Bool-cases (ltb_ℤ n (pos k +ℤ pos k))) [
    | inl e ↦ rw e (omega int_laws)
    | inr e ↦ rw e (omega (int_laws, ge_of_not_ltb _ _ e))
  ]

  n_cr-IsNonneg : (n : ℤ) (k : ℕ) → IsNumber D (n_cr D n (pos k)) → IsNonneg D (n_cr D n (pos k))
  unfolding n_cr
  n_cr-IsNonneg n k v = n_cr_loop-IsNonneg _ 1 _ _ (n_cr_base n k) (omega arith) (L.of_nonneg 1) v

  binary_distribution-IsNonneg :
      (k : ℕ) (n : ℤ) (p : Double)
      → IsNonneg D p
      → IsNonneg D (D.sub (of_ℤ (pos 1)) p)
      → IsNumber D (binary_distribution D (pos k) n p)
      → IsNonneg D (binary_distribution D (pos k) n p)
  unfolding binary_distribution
  binary_distribution-IsNonneg k n p h q v =
      let chosen = L.mul_left _ _ v in
      let ways = n_cr-IsNonneg n k (L.mul_left _ _ chosen) in
      L.mul_nonneg _ _ (L.mul_nonneg _ _ ways (L.pow_nonneg p k h) chosen)
        (L.pow_rest p n (pos k) q) v

  sum_loop-suc :
      (rounds i : ℕ) (w : ℤ) (p sum : Double)
      → sum_loop D (suc rounds) i w p sum
        ≡ add (sum_loop D rounds i w p sum) (binary_distribution D (pos (i + rounds)) w p)
  unfolding sum_loop
  sum_loop-suc zero i w p sum = rw (add-zero i) refl
  sum_loop-suc (suc rounds) i w p sum =
      let next : Double = add sum (binary_distribution D (pos i) w p) in
      let e : i + 1 + rounds ≡ i + suc rounds = omega arith in
      sum_loop-suc rounds (i + 1) w p next
      ∙ ap (λ k. add (sum_loop D rounds (i + 1) w p next) (binary_distribution D (pos k) w p)) e

  algorand_sum-suc :
      (j : ℕ) (w : ℤ) (p : Double)
      → algorand_sum D (suc j) w p
        ≡ add (algorand_sum D j w p) (binary_distribution D (pos (suc j)) w p)
  unfolding algorand_sum
  algorand_sum-suc j w p =
      let e : 0 + (j + 1) ≡ suc j = omega arith in
      let t : suc j + 1 ≡ suc (j + 1) = omega arith in
      rw t (
        sum_loop-suc (j + 1) 0 w p (of_ℤ (pos 0))
        ∙ ap
            (λ k. add (sum_loop D (j + 1) 0 w p (of_ℤ (pos 0))) (binary_distribution D (pos k) w p))
            e)

  -- a sum is a number only when all the sums before it are
  pub algorand_sum-IsNumber :
      (i n : ℕ) (w : ℤ) (p : Double)
      → IsNumber D (algorand_sum D (n + i) w p)
      → IsNumber D (algorand_sum D i w p)
  algorand_sum-IsNumber i zero w p v =
      let e : zero + i ≡ i = omega arith in subst (λ k. IsNumber D (algorand_sum D k w p)) e v
  algorand_sum-IsNumber i (suc n) w p v =
      let e : suc n + i ≡ suc (n + i) = omega arith in
      let whole = subst (λ k. IsNumber D (algorand_sum D k w p)) e v in
      let parts = subst (IsNumber D) (algorand_sum-suc (n + i) w p) whole in
      algorand_sum-IsNumber i n w p (L.add_left _ _ parts)

  -- For `double` values with the laws of NonnegLaws, a probability p where neither p nor 1 - p is negative, and as
  -- long as the sum up to n + i is a number (no operation has led to NaN), that sum is at least the sum up to i.
  pub algorand_sum_mono :
      (i n : ℕ) (w : ℤ) (p : Double)
      → IsNonneg D p
      → IsNonneg D (D.sub (of_ℤ (pos 1)) p)
      → IsNumber D (algorand_sum D (n + i) w p)
      → le (algorand_sum D i w p) (algorand_sum D (n + i) w p) ≡ true
  algorand_sum_mono i zero w p h q v =
      let e : zero + i ≡ i = omega arith in
      rw e (subst (λ k. IsNumber D (algorand_sum D k w p)) e v)
  algorand_sum_mono i (suc n) w p h q v =
      let e : suc n + i ≡ suc (n + i) = omega arith in
      let whole = subst (λ k. IsNumber D (algorand_sum D k w p)) e v in
      let parts = subst (IsNumber D) (algorand_sum-suc (n + i) w p) whole in
      let term = binary_distribution-IsNonneg (suc (n + i)) w p h q (L.add_right _ _ parts) in
      rw e (
        L.le_trans _ _ _ (algorand_sum_mono i n w p h q (L.add_left _ _ parts))
          (rw (algorand_sum-suc (n + i) w p) (L.le-add _ _ term parts)))
