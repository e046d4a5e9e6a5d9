-- ===== src/System/ViewChange/Stores.antt =====
-- The loops that give each entry of an array the same value (system/worker_thread.cpp: reset of the worker).
use algorand.Prelude.{
  update, ℕ, zero, suc, ◌+◌, ◌≤◌, ◌<◌, ◌≡◌, ◌==◌, ==_iff, ==_refl, arith, Bool-cases, inl, inr,
  refl, ◌∙◌, ap,
}

-- `for (k = 0; k < left; k++) a[i + k] = x;`
unfoldable pub fill : {A : Type 0} → ℕ → ℕ → A → (ℕ → A) → ℕ → A
fill zero i x a = a
fill (suc left) i x a = fill left (i + 1) x (update a i x)

-- the same in each row from i on
unfoldable pub fill_rows : {A : Type 0} → ℕ → ℕ → ℕ → A → (ℕ → ℕ → A) → ℕ → ℕ → A
unfolding fill
fill_rows zero i width x a = a
fill_rows (suc left) i width x a =
    fill_rows left (i + 1) width x (update a i (fill width 0 x (a i)))

pub fill_outside :
    {A : Type 0} (left i : ℕ) (x : A) (a : ℕ → A) (j : ℕ) → j < i → fill left i x a j ≡ a j
unfolding fill
fill_outside zero i x a j h = refl
fill_outside (suc left) i x a j h = fill_outside left (i + 1) x _ j (omega arith) ∙ ground arith

pub fill_lem :
    {A : Type 0} (left i : ℕ) (x : A) (a : ℕ → A) (j : ℕ)
    → i ≤ j
    → j < i + left
    → fill left i x a j ≡ x
unfolding fill
fill_lem zero i x a j lo hi = absurd (omega arith)
fill_lem (suc left) i x a j lo hi = elim (Bool-cases (i == j)) [
  | inl here ↦
      let at : j ≡ i = ground (arith, ==_iff i j) in
      rw at (fill_outside left (i + 1) x (update a i x) i (omega arith) ∙ rw (==_refl i) refl)
  | inr later ↦ fill_lem left (i + 1) x _ j (ground (arith, ==_iff i j)) (omega arith)
]

pub fill_rows_outside :
    {A : Type 0} (left i width : ℕ) (x : A) (a : ℕ → ℕ → A) (j : ℕ)
    → j < i
    → fill_rows left i width x a j ≡ a j
unfolding fill_rows
fill_rows_outside zero i width x a j h = refl
fill_rows_outside (suc left) i width x a j h =
    fill_rows_outside left (i + 1) width x _ j (omega arith) ∙ ground arith

pub fill_rows_lem :
    {A : Type 0} (left i width : ℕ) (x : A) (a : ℕ → ℕ → A) (j k : ℕ)
    → i ≤ j
    → j < i + left
    → k < width
    → fill_rows left i width x a j k ≡ x
unfolding fill_rows
fill_rows_lem zero i width x a j k lo hi w = absurd (omega arith)
fill_rows_lem (suc left) i width x a j k lo hi w = elim (Bool-cases (i == j)) [
  | inl here ↦
      let at : j ≡ i = ground (arith, ==_iff i j) in
      rw at (
        ap (λ row. row k)
          (fill_rows_outside left (i + 1) width x (update a i (fill width 0 x (a i))) i
            (omega arith))
        ∙ rw (==_refl i) (fill_lem width 0 x (a i) k (omega arith) (omega arith)))
  | inr later ↦
      fill_rows_lem left (i + 1) width x _ j k (ground (arith, ==_iff i j)) (omega arith) w
]
