-- ===== src/Blockchain/Sortition/Loop.antt =====
-- When the selection loop of sortition and verify ends, and with what (blockchain/Algorand.cpp).
use mathlib.Core.Path.{subst}
use native.Mathlib.Decide.{dec_lt}
use algorand.Prelude.{
  ◌-◌, ℕ, zero, suc, ◌+◌, ◌<◌, ◌≡◌, refl, sym, ap, ◌∙◌, true, false, inl, inr, Bool-cases, some,
  arith,
}
use algorand.Prelude.Int.{ℤ, pos}
use algorand.Blockchain.Double.{Doubles, IsNonneg, IsNumber, NonnegLaws}
use algorand.Blockchain.Binomial.{algorand_sum}
use algorand.Blockchain.Binomial.Monotone.{algorand_sum_mono, algorand_sum-IsNumber}
use algorand.Blockchain.Sortition.{outside, select}

module _ (D : Doubles) (L : NonnegLaws D) (hash_div : D.Double) (w : ℤ) (p : D.Double) where
  open D use {lt, le}

  not_lt_of_le : (x y : D.Double) → le x y ≡ true → lt y x ≡ false
  not_lt_of_le x y h = elim (Bool-cases (lt y x)) [
    | inl e ↦ cc (L.lt-le y x y e h, L.lt_irrefl y)
    | inr e ↦ e
  ]

  not_le_of_lt : (x y : D.Double) → lt x y ≡ true → le y x ≡ false
  not_le_of_lt x y h = elim (Bool-cases (le y x)) [ inl e ↦ cc (not_lt_of_le y x e) | inr e ↦ e ]

  lt_of_not_le : (x y : D.Double) → IsNumber D x → IsNumber D y → le y x ≡ false → lt x y ≡ true
  lt_of_not_le x y number_x number_y h = elim (Bool-cases (lt x y)) [
    | inl e ↦ e
    | inr e ↦ cc (L.le_of_not_lt x y number_x number_y e)
  ]

  -- the hash is at or above the sum up to i, or below it
  abbrev Above : ℕ → Type 0
  Above i = le (algorand_sum D i w p) hash_div ≡ true

  abbrev Under : ℕ → Type 0
  Under i = lt hash_div (algorand_sum D i w p) ≡ true

  abbrev HasSum : ℕ → Type 0
  HasSum i = IsNumber D (algorand_sum D i w p)

  HasSum-of_Under : (i n : ℕ) → Under (n + i) → HasSum i
  HasSum-of_Under i n u = algorand_sum-IsNumber D L i n w p (L.lt_right _ _ u)

  select_from :
      (fuel i : ℕ)
      → Above i
      → Under (i + fuel)
      → (j : ℕ) × (select D fuel hash_div w p i ≡ some j) × Above j × Under (j + 1) × (j < i + fuel)
  unfolding select
  select_from zero i h k =
      let e : i + 0 ≡ i = omega arith in
      let k' : Under i = subst Under e k in cc (not_lt_of_le _ _ h)
  select_from (suc fuel) i h k = elim (Bool-cases (le (algorand_sum D (i + 1) w p) hash_div)) [
    | inl out ↦
        let e : i + suc fuel ≡ i + 1 + fuel = omega arith in
        let (j, r, a, u, b) = select_from fuel (i + 1) out (subst Under e k) in
        (j, ground arith, a, u, omega arith)
    | inr end ↦
        let e : i + suc fuel ≡ fuel + (i + 1) = omega arith in
        let number = HasSum-of_Under (i + 1) fuel (subst Under e k) in
        let under = lt_of_not_le _ _ (L.le_right _ _ h) number end in
        (i, ground (arith, not_lt_of_le _ _ h), h, under, omega arith)
  ]

  -- For `double` values with the laws of NonnegLaws: from a hash that is not below the sum up to 0,
  -- and for which some sum is above it, the loop ends with fuel for the rounds up to that sum; the
  -- number j that it returns is one for which the hash lies in [sum up to j, sum up to j + 1).
  pub select_total :
      (n : ℕ)
      → Above 0
      → Under n
      → (j : ℕ) × (select D n hash_div w p 0 ≡ some j) × Above j × Under (j + 1) × (j < n)
  select_total n h k =
      let e : n ≡ 0 + n = omega arith in
      let (j, r, a, u, b) = select_from n 0 h (subst Under e k) in (j, r, a, u, omega arith)

  module _ (p_nonneg : IsNonneg D p) (q_nonneg : IsNonneg D (D.sub (D.of_ℤ (pos 1)) p)) where
    Under-mono : (i n : ℕ) → Under i → HasSum (n + i) → Under (n + i)
    Under-mono i n h v = L.lt-le _ _ _ h (algorand_sum_mono D L i n w p p_nonneg q_nonneg v)

    -- below the first sum, a round goes on where its sum is a number, and ends where it is not
    outside_below : (i : ℕ) → Under 0 → HasSum i → outside D hash_div w p i ≡ true
    outside_below i h v =
        let e : i + 0 ≡ i = omega arith in
        let u : Under i = subst Under e (Under-mono 0 i h (subst HasSum (sym e) v)) in ground arith

    outside_past : (i : ℕ) → ¬ HasSum i → outside D hash_div w p i ≡ false
    outside_past i past =
        let next : ¬ HasSum (i + 1) = λ v.
          let e : i + 1 ≡ 1 + i = omega arith in
          past (algorand_sum-IsNumber D L i 1 w p (subst HasSum e v)) in
        let not_lt : lt hash_div (algorand_sum D i w p) ≡ false =
          elim (Bool-cases (lt hash_div (algorand_sum D i w p))) [
            | inl e ↦ absurd (past (L.lt_right _ _ e))
            | inr e ↦ e
          ] in
        let not_le : le (algorand_sum D (i + 1) w p) hash_div ≡ false =
          elim (Bool-cases (le (algorand_sum D (i + 1) w p) hash_div)) [
            | inl e ↦ absurd (next (L.le_left _ _ e))
            | inr e ↦ e
          ] in
        ground arith

    select_on :
        (rounds i : ℕ)
        → Under 0
        → HasSum (i + rounds)
        → ¬ HasSum (i + suc rounds)
        → select D (suc (suc rounds)) hash_div w p i ≡ some (i + suc rounds)
    unfolding select
    select_on zero i h v past =
        let e : i + 0 ≡ i = omega arith in
        let e' : i + 1 ≡ i + suc zero = omega arith in
        let on = outside_below i h (subst HasSum e v) in
        let end = outside_past (i + 1) (λ x. past (subst HasSum e' x)) in rw (on, end) refl
    select_on (suc rounds) i h v past =
        let e : i + suc rounds ≡ i + 1 + rounds = omega arith in
        let e' : i + 1 + suc rounds ≡ i + suc (suc rounds) = omega arith in
        let here = algorand_sum-IsNumber D L i (suc rounds) w p (subst HasSum (omega arith) v) in
        let rest = select_on rounds (i + 1) h (subst HasSum e v) (λ x. past (subst HasSum e' x)) in
        rw (outside_below i h here) (rest ∙ ap some e')

    -- For `double` values with the laws of NonnegLaws, and where neither p nor 1 - p is negative: for a hash below the
    -- sum up to 0 (the case of a user who was not chosen at all), when the sum up to n is a number and the sum up to
    -- n + 1 is NaN, the loop with fuel for n + 2 rounds ends, and returns n + 1.
    pub select_unchosen :
        (n : ℕ)
        → Under 0
        → HasSum n
        → ¬ HasSum (suc n)
        → select D (suc (suc n)) hash_div w p 0 ≡ some (suc n)
    select_unchosen n h v past =
        let e : n ≡ 0 + n = omega arith in
        let e' : 0 + suc n ≡ suc n = omega arith in
        select_on n 0 h (subst HasSum e v) (λ x. past (subst HasSum e' x)) ∙ ap some e'

    -- For `double` values with the laws of NonnegLaws, and where neither p nor 1 - p is negative, the
    -- hash lies in the interval from the sum up to i to the sum up to i + 1 for at most one i.
    pub interval_unique : (i j : ℕ) → Above i → Under (i + 1) → Above j → Under (j + 1) → i ≡ j
    interval_unique i j a u b v = elim (dec_lt i j) [
      | yes less ↦
          let e : (j - (i + 1)) + (i + 1) ≡ j = omega arith in
          let x : Under j =
            subst Under e
              (Under-mono (i + 1) (j - (i + 1)) u (subst HasSum (sym e) (L.le_left _ _ b))) in
          cc (not_lt_of_le _ _ b)
      | no more ↦ elim (dec_lt j i) [
        | yes less ↦
            let e : (i - (j + 1)) + (j + 1) ≡ i = omega arith in
            let x : Under i =
              subst Under e
                (Under-mono (j + 1) (i - (j + 1)) v (subst HasSum (sym e) (L.le_left _ _ a))) in
            cc (not_lt_of_le _ _ a)
        | no less ↦ omega arith
      ]
    ]
