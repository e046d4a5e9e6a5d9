-- ===== src/Blockchain/Votes/Order.antt =====
-- Counting votes in one order or another (blockchain/Algorand.cpp: countVotes).
use mathlib.Core.List.{Permᴰ}
use algorand.Prelude.{
  ◌≡◌, refl, sym, ◌∙◌, false, List, [], ◌∷◌, Text, text_eq, Bool-cases, inl, inr,
}
use algorand.Prelude.Int.{ℤ, ◌+ℤ◌, int_laws}
use algorand.Blockchain.Double.{Doubles}
use algorand.Blockchain.Vrf.{Openssl}
use algorand.Blockchain.Algorand.{Algorand, DataPackage}
use algorand.Blockchain.Votes.{count_of}
use algorand.Blockchain.Votes.Tally.{
  has_voted, first_votes, tally, count_all, counts-count_all, is_some_vote-nil,
}

-- no two of the packages are of one voter, and none is of a voter in `seen`
abbrev pub AreDifferent : List Text → List DataPackage → Type 0
AreDifferent seen [] = Unit
AreDifferent seen (dp ∷ dps) = (has_voted dp.pk seen ≡ false) × AreDifferent (dp.pk ∷ seen) dps

first_votes_all :
    (seen : List Text) (dps : List DataPackage) → AreDifferent seen dps → first_votes seen dps ≡ dps
first_votes_all seen [] d = refl
first_votes_all seen (dp ∷ dps) d = rw (d.0, first_votes_all (dp.pk ∷ seen) dps d.1) refl

swap_terms : (x y z : ℤ) → x +ℤ (y +ℤ z) ≡ y +ℤ (x +ℤ z)
swap_terms x y z = omega int_laws

tally_swap :
    (value : Text) (x y : DataPackage) (dps : List DataPackage)
    → tally value (x ∷ (y ∷ dps)) ≡ tally value (y ∷ (x ∷ dps))
tally_swap value x y dps = elim (Bool-cases (text_eq x.value value)) [
  | inl h ↦ elim (Bool-cases (text_eq y.value value)) [
    | inl k ↦ rw (h, k) (swap_terms x.j y.j (tally value dps))
    | inr k ↦ rw (h, k) refl
  ]
  | inr h ↦ rw h refl
]

tally_reorder :
    (value : Text) {xs ys : List DataPackage} → Permᴰ xs ys → tally value xs ≡ tally value ys
tally_reorder value Permᴰ.nil = refl
tally_reorder value (Permᴰ.cons e d) = rw (e, tally_reorder value d) refl
tally_reorder value (Permᴰ.swap {a} {b} {l = l} e e') = rw (sym e, sym e') (tally_swap value a b l)
tally_reorder value (Permᴰ.trans d d') = tally_reorder value d ∙ tally_reorder value d'

-- The order of packages does not matter: counted from a state with no votes, two lists with the same packages
-- in two orders, no two of them of one voter, give each value the same number of votes.
pub count_all_reorder :
    (D : Doubles) (O : Openssl) (T : D.Double) (threshold : ℤ) (a : Algorand O)
    (dps dps' : List DataPackage) (value : Text)
    → a.counts ≡ []
    → a.countvotes_pk ≡ []
    → AreDifferent [] dps
    → AreDifferent [] dps'
    → Permᴰ dps dps'
    → count_of value (count_all D O T threshold a dps).counts
      ≡ count_of value (count_all D O T threshold a dps').counts
count_all_reorder D O T threshold a dps dps' value e f d d' p =
    let counted =
      counts-count_all D O T threshold [] a dps value (λ k. rw f (is_some_vote-nil k)) in
    let counted' =
      counts-count_all D O T threshold [] a dps' value (λ k. rw f (is_some_vote-nil k)) in
    rw
      (
        counted,
        counted',
        first_votes_all [] dps d,
        first_votes_all [] dps' d',
        tally_reorder value p,
      )
      refl
