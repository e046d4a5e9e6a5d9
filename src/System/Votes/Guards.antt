-- ===== src/System/Votes/Guards.antt =====
-- What the handlers of batches and of prepare messages do with a vote (system/worker_thread.cpp).
use algorand.Prelude.{ℕ, suc, ◌≡◌, refl, true, false, none, some, Text, lookup, text_eq_refl}
use algorand.Prelude.Int.{ℤ, pos, negsuc, ◌+ℤ◌}
use algorand.Blockchain.Vrf.{verify_with}
use algorand.Blockchain.Algorand.{Algorand, DataPackage}
use algorand.Blockchain.Vrf.Laws.{RsaLaws}
use algorand.Blockchain.Sortition.{sortition, verify}
use algorand.Blockchain.Sortition.Agreement.{verify-sortition}
use algorand.Blockchain.Votes.{count_of, count_votes}
use algorand.Blockchain.Votes.Tally.{count_votes-counts}
use algorand.System.Node.{Platform, Node}
use algorand.System.Votes.{not_rejected, nonzero, count_batch_vote, count_prep_vote}

module _ (P : Platform) (dp : DataPackage) (n : Node P) where
  open P use {D, O, agreement}

  verify_fails :
      verify_with O n.g_algorand.seed dp.proof dp.pk n.g_algorand.f_hash ≡ some false
      → verify D O P.fuel dp (pos 20) n.g_algorand.sum_w n.g_algorand
        ≡ some (n.g_algorand, negsuc 0)
  unfolding verify
  verify_fails h = rw h

  -- In a prepare message, a package whose proof does not verify is counted: for a key that has not voted, the
  -- number of votes that the sender wrote in is added to its value.
  pub prep_counts_unverified :
      verify_with O n.g_algorand.seed dp.proof dp.pk n.g_algorand.f_hash ≡ some false
      → lookup dp.pk n.g_algorand.countvotes_pk ≡ none
      → (n' : Node P) × (count_prep_vote P dp n ≡ some n')
        × (count_of dp.value n'.g_algorand.counts ≡ count_of dp.value n.g_algorand.counts +ℤ dp.j)
  unfolding count_prep_vote
  prep_counts_unverified h fresh = (
    record n {
      g_dp = dp;
      m_dp = record n.m_dp { value = dp.value };
      g_algorand = (count_votes D O agreement (pos 20) dp n.g_algorand).0;
    },
    rw (verify_fails h),
    rw (
      count_votes-counts D O agreement (pos 20) n.g_algorand dp dp.value fresh,
      text_eq_refl dp.value,
    ),
  )

  -- Under the laws of raw RSA, the vote of an honest user is counted: a package that sortition made, with the
  -- threshold 20 and this node's total of stakes, for a user with a private key, its public half and a hash
  -- function. Where the node works with the same seed and hash function, records the user's stake, and has not
  -- counted the key, and at least one vote was drawn, the handlers of batches and of prepare messages have one
  -- effect: the votes of the package are added to its value.
  pub counts-sortition :
      (L : RsaLaws O) (w : ℤ) (value : Text) (a : Algorand O) (k : O.Key) (md : O.Md) (votes : ℕ)
      {a' : Algorand O}
      → a.m_privatekey ≡ some k
      → a.m_publickey ≡ some (O.public_of k)
      → a.f_hash ≡ some md
      → n.g_algorand.f_hash ≡ some md
      → n.g_algorand.seed ≡ a.seed
      → lookup dp.pk n.g_algorand.wallet ≡ some w
      → lookup dp.pk n.g_algorand.countvotes_pk ≡ none
      → sortition D O P.fuel (pos 20) w n.g_algorand.sum_w value a ≡ some (a', dp)
      → dp.j ≡ pos (suc votes)
      → (n' : Node P) × (count_batch_vote P dp n ≡ some n')
        × (count_prep_vote P dp n ≡ some n')
        × (count_of dp.value n'.g_algorand.counts
            ≡ count_of dp.value n.g_algorand.counts +ℤ pos (suc votes))
  unfolding count_batch_vote count_prep_vote
  counts-sortition L w value a k md votes ek ep em em' es held fresh drawn some_votes =
      let ok =
        verify-sortition D O L P.fuel (pos 20) w n.g_algorand.sum_w value a n.g_algorand k md ek ep
          em em' es held drawn in
      let taken : not_rejected dp.j ≡ true = rw some_votes refl in
      let counted : nonzero dp.j ≡ true = rw some_votes refl in
      (
        record n {
          g_dp = dp;
          m_dp = record n.m_dp { value = dp.value };
          g_algorand = (count_votes D O agreement (pos 20) dp n.g_algorand).0;
        },
        rw (ok, taken) refl,
        rw (ok, counted) refl,
        rw (
          count_votes-counts D O agreement (pos 20) n.g_algorand dp dp.value fresh,
          text_eq_refl dp.value,
          some_votes,
        ),
      )
