-- ===== src/Prelude/Counting.antt =====
-- How many numbers of a range a test holds of.
use Prim.Native.Nat.{ℕ, zero, suc, ◌+◌, ◌≤◌, ◌<◌}
use mathlib.Core.Path.{◌≡◌}
use mathlib.Core.Logic.{inl, inr}
use mathlib.Core.Bool.{Bool, true, false, ◌&&◌}
use native.Mathlib.Omega.{arith}
use algorand.Prelude.Tests.{if◌then◌else◌, Bool-cases, ◌==◌, ==_iff}

-- of `left` numbers from i on, how many the test holds of
abbrev pub count : (ℕ → Bool) → ℕ → ℕ → ℕ
count p zero i = 0
count p (suc left) i = let rest = count p left (i + 1) in if p i then suc rest else rest

pub count_meet :
    (p q : ℕ → Bool) (left i : ℕ)
    → count p left i + count q left i ≤ left + count (λ j. p j && q j) left i
count_meet p q zero i = ground arith
count_meet p q (suc left) i = elim (Bool-cases (p i)) [
  | inl hit ↦ elim (Bool-cases (q i)) [
    | inl hit' ↦ ground (arith, count_meet p q left (i + 1))
    | inr miss ↦ ground (arith, count_meet p q left (i + 1))
  ]
  | inr miss ↦ ground (arith, count_meet p q left (i + 1))
]

-- a test that implies another holds of fewer numbers
pub count_mono :
    (p q : ℕ → Bool)
    → ((j : ℕ) → p j ≡ true → q j ≡ true)
    → (left i : ℕ) → count p left i ≤ count q left i
count_mono p q imp zero i = omega arith
count_mono p q imp (suc left) i = ground (arith, imp i, count_mono p q imp left (i + 1))

-- and of one fewer, where a number in the range has the other only
pub count_lt :
    (p q : ℕ → Bool)
    → ((j : ℕ) → p j ≡ true → q j ≡ true)
    → (a : ℕ) → p a ≡ false
    → q a ≡ true
    → (left i : ℕ) → i ≤ a
    → a < i + left
    → count p left i + 1 ≤ count q left i
count_lt p q imp a no_p is_q zero i lo hi = absurd (omega arith)
count_lt p q imp a no_p is_q (suc left) i lo hi = elim (Bool-cases (i == a)) [
  | inl here ↦
      let at : i ≡ a = (==_iff i a).0 here in
      let no_p' : p i ≡ false = rw at no_p in
      let is_q' : q i ≡ true = rw at is_q in ground (arith, count_mono p q imp left (i + 1))
  | inr later ↦
      let next : i + 1 ≤ a = ground (arith, ==_iff i a) in
      ground (arith, imp i, count_lt p q imp a no_p is_q left (i + 1))
]
