-- ===== src/Blockchain/Sortition.antt =====
-- blockchain/Algorand.cpp: the loop that counts how often a user was chosen, sortition and verify.
-- `none` is a fault (an unknown hash function, a proof that was never written, a text that is no key, a hash shorter
-- than two bytes) or a loop that has not ended within its fuel.
pub mod Loop
pub mod Agreement
use algorand.Prelude.{
  ℕ, zero, suc, ◌+◌, ◌*◌, ◌≡◌, Bool, true, false, ◌||◌, List, Option, none, some, Text, lookup,
  insert, if◌then◌else◌, get_elem?,
}
use algorand.Prelude.Fallible.{◌>>=◌}
use algorand.Prelude.Int.{ℤ, pos, negsuc, to_int}
use algorand.Blockchain.Double.{Doubles}
use algorand.Blockchain.Binomial.{algorand_sum}
use algorand.Blockchain.Vrf.{
  Openssl, get_key_len, key_to_string, vrf_rsa_sign, verify_with, proof_to_output,
}
use algorand.Blockchain.Algorand.{Algorand, DataPackage, algorand_init}

module _ (D : Doubles) where
  open D use {Double, of_ℤ, div, pow, lt, le}

  -- the condition under which the loop goes on
  abbrev pub outside : Double → ℤ → Double → ℕ → Bool
  outside hash_div w p j =
      lt hash_div (algorand_sum D j w p) || le (algorand_sum D (j + 1) w p) hash_div

  -- `while (hash_div < algorand_sum(0, j) || hash_div >= algorand_sum(0, j + 1)) j++;`
  unfoldable pub select : ℕ → Double → ℤ → Double → ℕ → Option ℕ
  select zero hash_div w p j = none
  select (suc fuel) hash_div w p j =
      let rest = select fuel hash_div w p (j + 1) in if outside hash_div w p j then rest else some j

  -- `threshold / W`
  abbrev pub fraction : ℤ → ℤ → Double
  fraction threshold W = div (of_ℤ threshold) (of_ℤ W)

  -- the first two bytes of the hash as a fraction of 2 ^ 16
  unfoldable pub hash_fraction : Text → Option Double
  hash_fraction hash = do
    high ← get_elem? hash 0
    low ← get_elem? hash 1
    some (div (of_ℤ (pos (high * 256 + low))) (pow (of_ℤ (pos 2)) (of_ℤ (pos 16))))

module _ (D : Doubles) (O : Openssl) (fuel : ℕ) where
  -- The parameter `role` of the source is used by nothing.
  unfoldable pub sortition : ℤ → ℤ → ℤ → Text → Algorand O → Option (Algorand O × DataPackage)
  sortition threshold w W value a = do
    md ← a.f_hash
    proof ← vrf_rsa_sign O a.seed (get_key_len O a.m_privatekey) a.m_privatekey a.f_hash
    hash ← proof_to_output O proof md
    hash_div ← hash_fraction D hash
    j ← select D fuel hash_div w (fraction D threshold W) 0
    pk ← key_to_string O a.m_publickey
    some (
      record a { m_block = value; wallet = insert pk (to_int a.m_wallet) a.wallet },
      record {
        seed = a.seed;
        hash = hash;
        proof = proof;
        value = value;
        j = pos j;
        node_id = pos a.m_id;
        pk = pk;
        type = algorand_init;
      },
    )

  -- `this->wallet[dp->pk]` adds a stake of 0 for an unknown key
  stake_of : Text → List (Text × ℤ) → ℤ × List (Text × ℤ)
  stake_of pk wallet = elim (lookup pk wallet) [
    | some w ↦ (w, wallet)
    | none ↦ (pos 0, insert pk (pos 0) wallet)
  ]

  count_selected : DataPackage → ℤ → ℤ → Algorand O → Option (Algorand O × ℤ)
  unfolding stake_of
  count_selected dp threshold W a =
      let (w, wallet) = stake_of dp.pk a.wallet in
      do
        hash_div ← hash_fraction D dp.hash
        j ← select D fuel hash_div w (fraction D threshold W) 0
        some (record a { wallet = wallet }, pos j)

  -- -1 for a proof that does not verify
  unfoldable pub verify : DataPackage → ℤ → ℤ → Algorand O → Option (Algorand O × ℤ)
  unfolding count_selected
  verify dp threshold W a = do
    valid ← verify_with O a.seed dp.proof dp.pk a.f_hash
    if valid then count_selected dp threshold W a else some (a, negsuc 0)
