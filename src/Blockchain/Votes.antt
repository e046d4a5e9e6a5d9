-- ===== src/Blockchain/Votes.antt =====
-- blockchain/Algorand.cpp: countVotes.
pub mod Tally
pub mod Order
use algorand.Prelude.{◌≡◌, List, [], ◌∷◌, Option, none, some, Text, lookup, insert, if◌then◌else◌}
use algorand.Prelude.Int.{ℤ, pos, negsuc, ◌+ℤ◌}
use algorand.Blockchain.Double.{Doubles}
use algorand.Blockchain.Vrf.{Openssl}
use algorand.Blockchain.Algorand.{Algorand, DataPackage}

-- the value that `counts[value]` has after the vote, and 0 for a value that has none
abbrev pub count_of : Text → List (Text × ℤ) → ℤ
count_of value counts = elim (lookup value counts) [ none ↦ pos 0 | some n ↦ n ]

add_votes : Text → ℤ → List (Text × ℤ) → List (Text × ℤ)
add_votes value votes counts = elim (lookup value counts) [
  | some n ↦ insert value (n +ℤ votes) counts
  | none ↦ insert value votes counts
]

module _ (D : Doubles) (O : Openssl) where
  -- The result is -1 for a second vote, 1 when the value has reached `T * threshold`, and 0 below that.
  unfoldable pub count_votes : D.Double → ℤ → DataPackage → Algorand O → Algorand O × ℤ
  unfolding add_votes
  count_votes T threshold dp a = elim (lookup dp.pk a.countvotes_pk) [
    | some _ ↦ (a, negsuc 0)
    | none ↦
        let counts = add_votes dp.value dp.j a.counts in
        (
          record a { countvotes_pk = insert dp.pk (pos 1) a.countvotes_pk; counts = counts },
          if D.le (D.mul T (D.of_ℤ threshold)) (D.of_ℤ (count_of dp.value counts))
              then pos 1
              else pos 0,
        )
  ]
