-- ===== src/Blockchain/Double.antt =====
-- The `double` arithmetic that blockchain/Algorand.cpp uses (operators and `pow` of <cmath>),
-- and the facts of IEEE arithmetic, NaN and infinities included, that its loops rely on.
use algorand.Prelude.{ℕ, ◌≡◌, ◌≤◌, Bool, true, false}
use algorand.Prelude.Int.{ℤ, pos}

pub record Doubles : Type 1 where
  pub Double : Type 0
  -- the conversion of an `int`
  pub of_ℤ : ℤ → Double
  pub add : Double → Double → Double
  pub sub : Double → Double → Double
  pub mul : Double → Double → Double
  pub div : Double → Double → Double
  pub pow : Double → Double → Double
  pub lt : Double → Double → Bool
  pub le : Double → Double → Bool

abbrev pub IsNonneg : (D : Doubles) → D.Double → Type 0
IsNonneg D x = D.le (D.of_ℤ (pos 0)) x ≡ true

-- a comparison with NaN is false, also that with itself
abbrev pub IsNumber : (D : Doubles) → D.Double → Type 0
IsNumber D x = D.le x x ≡ true

-- What is not a number stays so under the operators. The two laws of pow are for the powers that the source takes:
-- an integer that is not negative, and a power of 1 - p, which is never a negative zero. Their base is not negative, so
-- the power is a number.
pub record NonnegLaws (D : Doubles) : Type 0 where
  pub le_left : (x y : D.Double) → D.le x y ≡ true → IsNumber D x
  pub le_right : (x y : D.Double) → D.le x y ≡ true → IsNumber D y
  pub lt_right : (x y : D.Double) → D.lt x y ≡ true → IsNumber D y
  pub le_trans : (x y z : D.Double) → D.le x y ≡ true → D.le y z ≡ true → D.le x z ≡ true
  pub lt-le : (x y z : D.Double) → D.lt x y ≡ true → D.le y z ≡ true → D.lt x z ≡ true
  pub lt_irrefl : (x : D.Double) → D.lt x x ≡ false
  pub le_of_not_lt :
      (x y : D.Double) → IsNumber D x → IsNumber D y → D.lt x y ≡ false → D.le y x ≡ true
  pub of_nonneg : (n : ℕ) → IsNonneg D (D.of_ℤ (pos n))
  pub of_pos : (n : ℕ) → 1 ≤ n → D.lt (D.of_ℤ (pos 0)) (D.of_ℤ (pos n)) ≡ true
  pub add_left : (x y : D.Double) → IsNumber D (D.add x y) → IsNumber D x
  pub add_right : (x y : D.Double) → IsNumber D (D.add x y) → IsNumber D y
  pub mul_left : (x y : D.Double) → IsNumber D (D.mul x y) → IsNumber D x
  pub div_left : (x y : D.Double) → IsNumber D (D.div x y) → IsNumber D x
  pub le-add : (x y : D.Double) → IsNonneg D y → IsNumber D (D.add x y) → D.le x (D.add x y) ≡ true
  pub mul_nonneg :
      (x y : D.Double)
      → IsNonneg D x
      → IsNonneg D y
      → IsNumber D (D.mul x y)
      → IsNonneg D (D.mul x y)
  pub div_nonneg :
      (x y : D.Double)
      → IsNonneg D x
      → D.lt (D.of_ℤ (pos 0)) y ≡ true
      → IsNumber D (D.div x y)
      → IsNonneg D (D.div x y)
  pub pow_nonneg : (x : D.Double) (k : ℕ) → IsNonneg D x → IsNonneg D (D.pow x (D.of_ℤ (pos k)))
  pub pow_rest :
      (p : D.Double) (n k : ℤ)
      → IsNonneg D (D.sub (D.of_ℤ (pos 1)) p)
      → IsNonneg D (D.pow (D.sub (D.of_ℤ (pos 1)) p) (D.sub (D.of_ℤ n) (D.of_ℤ k)))
