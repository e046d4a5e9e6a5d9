-- ===== src/Blockchain/Votes/Tally.antt =====
-- Counting votes against the history of the packages counted (blockchain/Algorand.cpp: countVotes).
use algorand.Prelude.{
  ◌≡◌, refl, sym, ap, ◌∙◌, Bool, true, false, ◌||◌, List, [], ◌∷◌, some, none, Text, text_eq,
  text_eq_iff, text_eq_refl, lookup, lookup-insert, if◌then◌else◌, Option-cases, inl, inr, arith,
  map,
}
use algorand.Prelude.Int.{ℤ, pos, negsuc, ◌+ℤ◌, +ℤ_assoc, int_laws}
use algorand.Blockchain.Double.{Doubles}
use algorand.Blockchain.Vrf.{Openssl}
use algorand.Blockchain.Algorand.{Algorand, DataPackage}
use algorand.Blockchain.Votes.{count_of, add_votes, count_votes}

-- whether a key stands in a list of keys
abbrev pub has_voted : Text → List Text → Bool
has_voted k [] = false
has_voted k (j ∷ ks) = text_eq j k || has_voted k ks

-- the first package of each key
abbrev pub first_votes : List Text → List DataPackage → List DataPackage
first_votes seen [] = []
first_votes seen (dp ∷ dps) =
    let rest = first_votes seen dps in
    let next = first_votes (dp.pk ∷ seen) dps in if has_voted dp.pk seen then rest else dp ∷ next

-- the votes that a list of packages gives to a value
abbrev pub tally : Text → List DataPackage → ℤ
tally value [] = pos 0
tally value (dp ∷ dps) =
    let rest = tally value dps in if text_eq dp.value value then dp.j +ℤ rest else rest

abbrev pub is_some_vote : Text → List (Text × ℤ) → Bool
is_some_vote k m = elim (lookup k m) [ none ↦ false | some _ ↦ true ]

zero-+ℤ : (z : ℤ) → pos 0 +ℤ z ≡ z
zero-+ℤ z = omega int_laws

+ℤ-zero : (z : ℤ) → z +ℤ pos 0 ≡ z
+ℤ-zero z = omega int_laws

count_of-add_votes :
    (v value : Text) (votes : ℤ) (counts : List (Text × ℤ))
    → count_of v (add_votes value votes counts)
      ≡ (if text_eq value v then count_of v counts +ℤ votes else count_of v counts)
unfolding add_votes
count_of-add_votes v value votes counts = elim (Option-cases (lookup value counts)) [
  | inl e ↦ ground (arith, text_eq_iff value v, zero-+ℤ votes, lookup-insert value v votes counts)
  | inr (n, e) ↦ ground (arith, text_eq_iff value v, lookup-insert value v (n +ℤ votes) counts)
]

add_vote :
    (b : Bool) (n j rest : ℤ)
    → (if b then n +ℤ j else n) +ℤ rest ≡ n +ℤ (if b then j +ℤ rest else rest)
add_vote true n j rest = +ℤ_assoc n j rest
add_vote false n j rest = refl

pub is_some_vote-nil : (k : Text) → is_some_vote k [] ≡ false
unfolding lookup
is_some_vote-nil k = refl

count_of-nil : (v : Text) → count_of v [] ≡ pos 0
unfolding lookup
count_of-nil v = refl

or_swap : (a b c : Bool) → ((a || b) || c) ≡ (b || (a || c))
or_swap a b c = ground arith

module _ (D : Doubles) (O : Openssl) (T : D.Double) (threshold : ℤ) where
  -- the packages counted one after the other
  abbrev pub count_all : Algorand O → List DataPackage → Algorand O
  count_all a [] = a
  count_all a (dp ∷ dps) = count_all (count_votes D O T threshold dp a).0 dps

  -- the keys of `seen` are those that have voted
  abbrev pub Knows : List Text → Algorand O → Type 0
  Knows seen a = (k : Text) → is_some_vote k a.countvotes_pk ≡ has_voted k seen

  count_votes-Knows :
      (seen : List Text) (a : Algorand O) (dp : DataPackage)
      → Knows seen a
      → lookup dp.pk a.countvotes_pk ≡ none
      → Knows (dp.pk ∷ seen) (count_votes D O T threshold dp a).0
  unfolding count_votes
  count_votes-Knows seen a dp h e k =
      ground (arith, h k, lookup-insert dp.pk k (pos 1) a.countvotes_pk)

  pub count_votes-counts :
      (a : Algorand O) (dp : DataPackage) (v : Text)
      → lookup dp.pk a.countvotes_pk ≡ none
      → count_of v (count_votes D O T threshold dp a).0.counts
        ≡ (if text_eq dp.value v then count_of v a.counts +ℤ dp.j else count_of v a.counts)
  unfolding count_votes
  count_votes-counts a dp v e = rw (e, count_votes) (count_of-add_votes v dp.value dp.j a.counts)

  -- a second vote changes nothing
  count_votes_again :
      (a : Algorand O) (dp : DataPackage) {n : ℤ}
      → lookup dp.pk a.countvotes_pk ≡ some n
      → count_votes D O T threshold dp a ≡ (a, negsuc 0)
  unfolding count_votes
  count_votes_again a dp e = rw (e, count_votes)

  pub counts-count_all :
      (seen : List Text) (a : Algorand O) (dps : List DataPackage) (v : Text)
      → Knows seen a
      → count_of v (count_all a dps).counts ≡ count_of v a.counts +ℤ tally v (first_votes seen dps)
  counts-count_all seen a [] v h = sym (+ℤ-zero _)
  counts-count_all seen a (dp ∷ dps) v h = elim (Option-cases (lookup dp.pk a.countvotes_pk)) [
    | inl e ↦
        let new : has_voted dp.pk seen ≡ false = ground (arith, h dp.pk) in
        rw new (
          counts-count_all (dp.pk ∷ seen) (count_votes D O T threshold dp a).0 dps v
            (count_votes-Knows seen a dp h e)
          ∙ rw (count_votes-counts a dp v e) (add_vote (text_eq dp.value v) _ dp.j _))
    | inr (n, e) ↦
        let old : has_voted dp.pk seen ≡ true = ground (arith, h dp.pk) in
        rw old (
          ap (λ (s : Algorand O × ℤ). count_of v (count_all s.0 dps).counts)
            (count_votes_again a dp e)
          ∙ counts-count_all seen a dps v h)
  ]

  -- what the -1, 0 or 1 of a call stands for, against the packages counted before it
  abbrev pub verdict : List DataPackage → DataPackage → ℤ
  verdict dps dp =
      let voters = map (λ (d : DataPackage). d.pk) dps in
      let total = tally dp.value (first_votes [] dps) +ℤ dp.j in
      if has_voted dp.pk voters
      then negsuc 0
      else if D.le (D.mul T (D.of_ℤ threshold)) (D.of_ℤ total)
      then pos 1
      else pos 0

  Knows-count_all :
      (seen : List Text) (a : Algorand O) (dps : List DataPackage) (k : Text)
      → Knows seen a
      → is_some_vote k (count_all a dps).countvotes_pk
        ≡ (has_voted k seen || has_voted k (map (λ (d : DataPackage). d.pk) dps))
  Knows-count_all seen a [] k h = ground (arith, h k)
  Knows-count_all seen a (dp ∷ dps) k h = elim (Option-cases (lookup dp.pk a.countvotes_pk)) [
    | inl e ↦
        let ih =
          Knows-count_all (dp.pk ∷ seen) (count_votes D O T threshold dp a).0 dps k
            (count_votes-Knows seen a dp h e) in
        ih ∙ or_swap (text_eq dp.pk k) (has_voted k seen) _
    | inr (n, e) ↦
        ap (λ (s : Algorand O × ℤ). is_some_vote k (count_all s.0 dps).countvotes_pk)
          (count_votes_again a dp e)
        ∙ Knows-count_all seen a dps k h
        ∙ ground (arith, h dp.pk, text_eq_iff dp.pk k)
  ]

  verdict_of_state :
      (a : Algorand O) (dp : DataPackage)
      → (count_votes D O T threshold dp a).1 ≡ (
          if is_some_vote dp.pk a.countvotes_pk
          then negsuc 0
          else if D.le (D.mul T (D.of_ℤ threshold)) (D.of_ℤ (count_of dp.value a.counts +ℤ dp.j))
          then pos 1
          else pos 0)
  unfolding count_votes
  verdict_of_state a dp = elim (Option-cases (lookup dp.pk a.countvotes_pk)) [
    | inl e ↦
        ground (arith, text_eq_refl dp.value, count_of-add_votes dp.value dp.value dp.j a.counts)
    | inr (n, e) ↦ ground arith
  ]

  -- After any packages, counted from a state with no votes: a package of a voter that was counted before
  -- gives -1; any other gives 1 exactly if the first votes for its value, its own included, have reached
  -- `T * threshold`, and 0 if they have not.
  pub count_votes-verdict :
      (a : Algorand O) (dps : List DataPackage) (dp : DataPackage)
      → a.counts ≡ []
      → a.countvotes_pk ≡ []
      → (count_votes D O T threshold dp (count_all a dps)).1 ≡ verdict dps dp
  count_votes-verdict a dps dp e f =
      let fresh : Knows [] a = λ k. rw f (is_some_vote-nil k) in
      let none_counted : count_of dp.value a.counts ≡ pos 0 = rw e (count_of-nil dp.value) in
      verdict_of_state (count_all a dps) dp
      ∙ rw (Knows-count_all [] a dps dp.pk fresh)
          (rw (counts-count_all [] a dps dp.value fresh) (rw (none_counted, zero-+ℤ _)))
