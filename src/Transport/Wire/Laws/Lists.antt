-- ===== src/Transport/Wire/Laws/Lists.antt =====
-- The loops that write and read a list of values.
use algorand.Prelude.{
  ℕ, zero, suc, ◌+◌, ◌≡◌, List, [], ◌∷◌, ◌++◌, length, length-append, arith, ◌*◌, subst, append_nil,
}
use algorand.Transport.Wire.{Wire, put_bytes, copy_list, read_list}
use algorand.Transport.Wire.Laws.{
  WireLaws, Writes, Reads, ⨾-Writes, >>=-Reads, copy_buf-Writes, copy_val-Reads, give-Reads,
}

unfoldable pub list_bytes : {A : Type 0} → Wire A → List A → List ℕ
list_bytes W [] = []
list_bytes W (x ∷ xs) = W.to_bytes x ++ list_bytes W xs

-- each value of the list fits
abbrev pub AllFit : {A : Type 0} → (A → Type 0) → List A → Type 0
AllFit Fits [] = Unit
AllFit Fits (x ∷ xs) = Fits x × AllFit Fits xs

module _ {A : Type 0} {W : Wire A} {Fits : A → Type 0} (L : WireLaws W Fits) where
  pub length-list_bytes : (xs : List A) → length (list_bytes W xs) ≡ W.size * length xs
  unfolding list_bytes
  length-list_bytes [] = omega arith
  length-list_bytes (x ∷ xs) =
      rw (length-append (W.to_bytes x) (list_bytes W xs), L.length-to_bytes x, length-list_bytes xs)
        (grind arith)

  pub copy_list-Writes :
      (n : ℕ) (xs : List A) → length xs ≡ n → Writes (copy_list W n xs) (list_bytes W xs)
  unfolding copy_list list_bytes put_bytes
  copy_list-Writes zero [] e = record {
    writes = λ buf p. let zero_more : p + 0 ≡ p = omega arith in rw zero_more;
  }
  copy_list-Writes zero (x ∷ xs) e = absurd (omega arith)
  copy_list-Writes (suc n) [] e = absurd (omega arith)
  copy_list-Writes (suc n) (x ∷ xs) e =
      let both = ⨾-Writes (copy_buf-Writes L x) (copy_list-Writes n xs (omega arith)) in
      record { writes = λ buf p. both.writes buf p }

  pub read_list-Reads :
      (n : ℕ) (xs : List A)
      → length xs ≡ n
      → AllFit Fits xs
      → Reads (read_list W n) (list_bytes W xs) xs
  unfolding read_list list_bytes
  read_list-Reads zero [] e f = give-Reads []
  read_list-Reads zero (x ∷ xs) e f = absurd (omega arith)
  read_list-Reads (suc n) [] e f = absurd (omega arith)
  read_list-Reads (suc n) (x ∷ xs) e f =
      subst (λ bs. Reads (read_list W (suc n)) (W.to_bytes x ++ bs) (x ∷ xs))
        (append_nil (list_bytes W xs))
        (>>=-Reads _ (copy_val-Reads L x f.0)
          (>>=-Reads _ (read_list-Reads n xs (omega arith) f.1) (give-Reads (x ∷ xs))))
