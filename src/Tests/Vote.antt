-- ===== src/Tests/Vote.antt =====
-- The laws of the vote at concrete packages.
use mathlib.Core.List.{Permᴰ}
use algorand.Prelude.{
  ℕ, ◌+◌, ◌≡◌, ◌<◌, none, refl, arith, insert, true, List, [], ◌∷◌, some, Text, codes, text_eq,
  length, lookup, replicate, take,
}
use algorand.Prelude.Int.{pos, ◌+ℤ◌, ◌-ℤ◌}
use algorand.Blockchain.Algorand.{Algorand, DataPackage, algorand_sort, algorand_init, reset}
use algorand.Blockchain.Algorand.Round.{reset_lem, getkeys, getkeys-sum_w}
use algorand.Blockchain.Double.{IsNumber}
use algorand.Blockchain.Binomial.{n_cr_loop, n_cr, binary_distribution, sum_loop, algorand_sum}
use algorand.Blockchain.Binomial.Monotone.{algorand_sum_mono}
use algorand.Blockchain.Votes.{count_of, count_votes}
use algorand.Blockchain.Votes.Order.{AreDifferent, count_all_reorder}
use algorand.Blockchain.Votes.Tally.{count_all, verdict, count_votes-verdict}
use algorand.Blockchain.Vrf.{
  get_key_len, key_to_string, proof_to_output, vrf_rsa_sign, vrf_rsa_verify,
}
use algorand.Blockchain.Vrf.Laws.{verify-sign, sign_of_verify}
use algorand.Blockchain.Sortition.{hash_fraction, select, sortition, verify}
use algorand.Blockchain.Sortition.Loop.{select_total, select_unchosen, interval_unique}
use algorand.Blockchain.Sortition.Agreement.{verify-sortition, verify-sortition_forged}
use algorand.Tests.Setup.{
  fixed, fixed-NonnegLaws, overflowing, overflowing-NonnegLaws, openssl, openssl-RsaLaws,
  openssl-IsPair, user, platform,
}
use algorand.Tests.Node.{node}
use algorand.System.Node.{Node}
use algorand.System.Votes.{count_batch_vote, count_prep_vote}
use algorand.System.Votes.Guards.{counts-sortition}

abbrev half : ℕ
half = 32768

abbrev vote : Text → ℕ → DataPackage
vote pk j = record {
  seed = codes "FWLKFWLKFWLKFWLKFWLK";
  hash = [];
  proof = [];
  value = codes "A";
  j = pos j;
  node_id = pos 0;
  pk = pk;
  type = algorand_sort;
}

abbrev earlier : List DataPackage
earlier = vote (codes "PK") 8 ∷ vote (codes "K2") 6 ∷ vote (codes "K2") 6 ∷ []

count_votes-verdict_example :
    (count_votes fixed openssl 44564
      (pos 20)
      (vote (codes "K3") 1)
      (count_all fixed openssl 44564 (pos 20) user earlier)).1
    ≡ verdict fixed openssl 44564 (pos 20) earlier (vote (codes "K3") 1)
count_votes-verdict_example =
    count_votes-verdict fixed openssl 44564 (pos 20) user earlier (vote (codes "K3") 1) refl refl

abbrev two_votes : List DataPackage
two_votes = vote (codes "PK") 8 ∷ vote (codes "K2") 6 ∷ []

abbrev swapped_votes : List DataPackage
swapped_votes = vote (codes "K2") 6 ∷ vote (codes "PK") 8 ∷ []

two-AreDifferent : AreDifferent [] two_votes
unfolding text_eq
two-AreDifferent = (refl, (refl, tt))

swapped-AreDifferent : AreDifferent [] swapped_votes
unfolding text_eq
swapped-AreDifferent = (refl, (refl, tt))

count_all_reorder_example :
    count_of (codes "A") (count_all fixed openssl 44564 (pos 20) user two_votes).counts
    ≡ count_of (codes "A") (count_all fixed openssl 44564 (pos 20) user swapped_votes).counts
count_all_reorder_example =
    count_all_reorder fixed openssl 44564 (pos 20) user two_votes swapped_votes (codes "A") refl
      refl two-AreDifferent swapped-AreDifferent (Permᴰ.swap refl refl)

-- the proof that the toy key makes of the seed
abbrev proof : Text
proof = 0 ∷ 160 ∷ 160 ∷ 160 ∷ []

verify-sign_example :
    (s : Text) × (vrf_rsa_sign openssl user.seed 4 (some tt) (some tt) ≡ some s)
    × (length s ≡ 4)
    × (vrf_rsa_verify openssl user.seed s (some tt) (some tt) ≡ true)
verify-sign_example = verify-sign openssl openssl-RsaLaws user.seed tt tt (replicate 3 160) refl

proof_verifies : vrf_rsa_verify openssl user.seed proof (some tt) (some tt) ≡ true
unfolding vrf_rsa_verify text_eq
proof_verifies = refl

sign_of_verify_example : vrf_rsa_sign openssl user.seed 4 (some tt) (some tt) ≡ some proof
sign_of_verify_example =
    sign_of_verify openssl openssl-RsaLaws user.seed proof tt tt openssl-IsPair proof_verifies

-- a stake of 3, each chosen with 1/2: the sums are 1/8, 1/2, 7/8 and 1
above_0 : fixed.le (algorand_sum fixed 0 (pos 3) half) 39321 ≡ true
unfolding algorand_sum sum_loop binary_distribution n_cr n_cr_loop ◌+ℤ◌ ◌-ℤ◌
above_0 = refl

above_1 : fixed.le (algorand_sum fixed 1 (pos 3) half) 39321 ≡ true
unfolding algorand_sum sum_loop binary_distribution n_cr n_cr_loop ◌+ℤ◌ ◌-ℤ◌
above_1 = refl

below_2 : fixed.lt 39321 (algorand_sum fixed 2 (pos 3) half) ≡ true
unfolding algorand_sum sum_loop binary_distribution n_cr n_cr_loop ◌+ℤ◌ ◌-ℤ◌
below_2 = refl

select_total_example :
    (j : ℕ) × (select fixed 2 39321 (pos 3) half 0 ≡ some j)
    × (fixed.le (algorand_sum fixed j (pos 3) half) 39321 ≡ true)
    × (fixed.lt 39321 (algorand_sum fixed (j + 1) (pos 3) half) ≡ true)
    × (j < 2)
select_total_example = select_total fixed fixed-NonnegLaws 39321 (pos 3) half 2 above_0 below_2

-- where sums of 7/8 or more overflow, the hash 1/10 of a user who was not chosen gives 2 votes
small_below_0 : overflowing.lt (some 6553) (algorand_sum overflowing 0 (pos 3) (some half)) ≡ true
unfolding algorand_sum sum_loop binary_distribution n_cr n_cr_loop ◌+ℤ◌ ◌-ℤ◌
small_below_0 = refl

IsNumber-1 : IsNumber overflowing (algorand_sum overflowing 1 (pos 3) (some half))
unfolding algorand_sum sum_loop binary_distribution n_cr n_cr_loop ◌+ℤ◌ ◌-ℤ◌
IsNumber-1 = refl

no-IsNumber_2 : ¬ IsNumber overflowing (algorand_sum overflowing 2 (pos 3) (some half))
unfolding algorand_sum sum_loop binary_distribution n_cr n_cr_loop ◌+ℤ◌ ◌-ℤ◌
no-IsNumber_2 h = cc

select_unchosen_example : select overflowing 3 (some 6553) (pos 3) (some half) 0 ≡ some 2
select_unchosen_example =
    select_unchosen overflowing overflowing-NonnegLaws (some 6553) (pos 3) (some half) refl refl 1
      small_below_0 IsNumber-1 no-IsNumber_2

interval_unique_example : ◌≡◌ {A = ℕ} 1 1
interval_unique_example =
    interval_unique fixed fixed-NonnegLaws 39321 (pos 3) half refl refl 1 1 above_1 below_2 above_1
      below_2

IsNumber-3 : IsNumber fixed (algorand_sum fixed 3 (pos 3) half)
unfolding algorand_sum sum_loop binary_distribution n_cr n_cr_loop ◌+ℤ◌ ◌-ℤ◌
IsNumber-3 = refl

algorand_sum_mono_example :
    fixed.le (algorand_sum fixed 1 (pos 3) half) (algorand_sum fixed 3 (pos 3) half) ≡ true
algorand_sum_mono_example =
    algorand_sum_mono fixed fixed-NonnegLaws 1 2 (pos 3) half refl refl IsNumber-3

-- the package that the node of `Setup` makes
abbrev made_package : DataPackage
made_package = record {
  seed = user.seed;
  hash = 160 ∷ 160 ∷ 162 ∷ [];
  proof = proof;
  value = codes "A";
  j = pos 1;
  node_id = pos 1;
  pk = codes "PK";
  type = algorand_init;
}

held : lookup (codes "PK") user.wallet ≡ some (pos 3)
unfolding lookup text_eq
held = refl

made :
    sortition fixed openssl 10 (pos 20) (pos 3) (pos 40) (codes "A") user
    ≡ some (record user { m_block = codes "A" }, made_package)
unfolding sortition vrf_rsa_sign proof_to_output hash_fraction select algorand_sum sum_loop
    binary_distribution n_cr n_cr_loop get_key_len key_to_string insert ◌+ℤ◌ ◌-ℤ◌ text_eq
made = refl

verify-sortition_example :
    verify fixed openssl 10 made_package (pos 20) (pos 40) user ≡ some (user, pos 1)
verify-sortition_example =
    verify-sortition fixed openssl openssl-RsaLaws 10 (pos 20) (pos 3) (pos 40) (codes "A") user
      user tt tt refl refl refl refl refl held made

read : hash_fraction fixed (255 ∷ 255 ∷ []) ≡ some 65535
unfolding hash_fraction
read = refl

forged_above : fixed.le (algorand_sum fixed 0 (pos 3) half) 65535 ≡ true
unfolding algorand_sum sum_loop binary_distribution n_cr n_cr_loop ◌+ℤ◌ ◌-ℤ◌
forged_above = refl

forged_under : fixed.lt 65535 (algorand_sum fixed 10 (pos 3) half) ≡ true
unfolding algorand_sum sum_loop binary_distribution n_cr n_cr_loop ◌+ℤ◌ ◌-ℤ◌
forged_under = refl

verify-sortition_forged_example :
    (j : ℕ) × (verify fixed openssl 10
        (record made_package { hash = 255 ∷ 255 ∷ [] })
        (pos 20)
        (pos 40)
        user
      ≡ some (user, pos j))
    × (fixed.le (algorand_sum fixed j (pos 3) half) 65535 ≡ true)
    × (fixed.lt 65535 (algorand_sum fixed (j + 1) (pos 3) half) ≡ true)
verify-sortition_forged_example =
    verify-sortition_forged fixed openssl openssl-RsaLaws 10 fixed-NonnegLaws (pos 20) (pos 3)
      (pos 40) (codes "A") user user tt tt (255 ∷ 255 ∷ []) 65535 refl refl refl refl refl held made
      read forged_above forged_under

reset_example :
    reset openssl user
    ≡ some (record user {
      counts = [];
      countvotes_pk = [];
      seed = take (length user.seed) user.m_block;
    })
reset_example = reset_lem openssl user (omega arith)

getkeys-sum_w_example :
    (a' : Algorand openssl) × (getkeys openssl ((codes "K2", 2) ∷ (codes "K3", 3) ∷ []) user
      ≡ some a')
    × (a'.sum_w ≡ pos 40 +ℤ pos 200)
    × (a'.counts ≡ [])
    × (a'.seed ≡ user.seed)
getkeys-sum_w_example =
    getkeys-sum_w openssl ((codes "K2", 2) ∷ (codes "K3", 3) ∷ []) user
      (omega arith, (omega arith, tt))

not_counted : lookup (codes "PK") user.countvotes_pk ≡ none
unfolding lookup
not_counted = refl

counts-sortition_example :
    (n' : Node platform) × (count_batch_vote platform made_package node ≡ some n')
    × (count_prep_vote platform made_package node ≡ some n')
    × (count_of (codes "A") n'.g_algorand.counts ≡ count_of (codes "A") [] +ℤ pos 1)
counts-sortition_example =
    counts-sortition platform made_package node openssl-RsaLaws (pos 3) (codes "A") user tt tt 0
      refl refl refl refl refl held not_counted made refl
