-- ===== src/Blockchain/Sortition/Agreement.antt =====
-- sortition and verify together (blockchain/Algorand.cpp: sortition, verify).
pub mod Exchange
use algorand.Prelude.{ℕ, ◌+◌, ◌≡◌, inl, inr, Option-cases, true, some, Text, lookup, arith}
use algorand.Prelude.Int.{ℤ, pos}
use algorand.Blockchain.Double.{Doubles, NonnegLaws}
use algorand.Blockchain.Binomial.{algorand_sum}
use algorand.Blockchain.Vrf.{
  Openssl, get_key_len, vrf_rsa_sign, verify_with, proof_to_output, key_to_string,
}
use algorand.Blockchain.Vrf.Laws.{RsaLaws, verify_with_of_sign}
use algorand.Blockchain.Algorand.{Algorand, DataPackage}
use algorand.Blockchain.Sortition.{sortition, verify, hash_fraction, select, fraction}
use algorand.Blockchain.Sortition.Loop.{select_total}

module _ (D : Doubles) (O : Openssl) (L : RsaLaws O) (fuel : ℕ) where
  -- the values that a successful sortition computed
  record Selected (threshold w W : ℤ) (value : Text) (a : Algorand O) (k : O.Key) (md : O.Md)
      (dp : DataPackage) : Type 0 where
    signed : vrf_rsa_sign O a.seed (O.rsa_size k) (some k) (some md) ≡ some dp.proof
    hashed : proof_to_output O dp.proof md ≡ some dp.hash
    div : D.Double
    read : hash_fraction D dp.hash ≡ some div
    selected : ℕ
    chosen : select D fuel div w (fraction D threshold W) 0 ≡ some selected
    voted : dp.j ≡ pos selected
    keyed : dp.pk ≡ O.write_public (O.public_of k)

  sortition-Selected :
      (threshold w W : ℤ) (value : Text) (a : Algorand O) (k : O.Key) (md : O.Md) {a' : Algorand O}
      {dp : DataPackage}
      → a.m_privatekey ≡ some k
      → a.m_publickey ≡ some (O.public_of k)
      → a.f_hash ≡ some md
      → sortition D O fuel threshold w W value a ≡ some (a', dp)
      → Selected threshold w W value a k md dp
  unfolding sortition get_key_len key_to_string
  sortition-Selected threshold w W value a k md {dp} ek ep em h =
      elim (Option-cases (vrf_rsa_sign O a.seed (O.rsa_size k) (some k) (some md))) [
        | inl e ↦ ground arith
        | inr (proof, e1) ↦ elim (Option-cases (proof_to_output O proof md)) [
          | inl e ↦ ground arith
          | inr (hash, e2) ↦ elim (Option-cases (hash_fraction D hash)) [
            | inl e ↦ ground arith
            | inr (div, e3) ↦ elim (Option-cases (select D fuel div w (fraction D threshold W) 0)) [
              | inl e ↦ ground arith
              | inr (j, e4) ↦ record {
                signed = ground arith;
                hashed = ground arith;
                div = div;
                read = ground arith;
                selected = j;
                chosen = e4;
                voted = ground arith;
                keyed = ground arith;
              }
            ]
          ]
        ]
      ]

  -- Under the laws of raw RSA, a package that sortition made, for a user with a private key, its
  -- public half and a hash function, verifies at every node that works with the same seed and hash
  -- function and records the stake w for the package's key: the result is the number of votes in the
  -- package, and the state is unchanged.
  pub verify-sortition :
      (threshold w W : ℤ) (value : Text) (a b : Algorand O) (k : O.Key) (md : O.Md)
      {a' : Algorand O} {dp : DataPackage}
      → a.m_privatekey ≡ some k
      → a.m_publickey ≡ some (O.public_of k)
      → a.f_hash ≡ some md
      → b.f_hash ≡ some md
      → b.seed ≡ a.seed
      → lookup dp.pk b.wallet ≡ some w
      → sortition D O fuel threshold w W value a ≡ some (a', dp)
      → verify D O fuel dp threshold W b ≡ some (b, dp.j)
  unfolding verify
  verify-sortition threshold w W value a b k md {dp} ek ep em em' es ew h =
      let s = sortition-Selected threshold w W value a k md ek ep em h in
      let ok : verify_with O b.seed dp.proof dp.pk b.f_hash ≡ some true =
        rw (es, em', s.keyed) (verify_with_of_sign O L a.seed dp.proof k md s.signed) in
      ground (arith, ok, s.read, s.chosen, s.voted, ew)

  -- `verify` reads the number of votes off the hash in the package and does not compare that hash with the proof.
  -- Under the laws of raw RSA and of NonnegLaws: in a package that sortition made, replace the hash by any text
  -- whose fraction is at or above the sum up to 0 and below some sum that the loop has the fuel for. Every node
  -- that works with the same seed and hash function and records the stake w for the package's key still accepts
  -- it, with the number of votes of the interval that the forged fraction is in.
  pub verify-sortition_forged :
      (N : NonnegLaws D) (threshold w W : ℤ) (value : Text) (a b : Algorand O) (k : O.Key)
      (md : O.Md) (forged : Text) (div : D.Double) {a' : Algorand O} {dp : DataPackage}
      → a.m_privatekey ≡ some k
      → a.m_publickey ≡ some (O.public_of k)
      → a.f_hash ≡ some md
      → b.f_hash ≡ some md
      → b.seed ≡ a.seed
      → lookup dp.pk b.wallet ≡ some w
      → sortition D O fuel threshold w W value a ≡ some (a', dp)
      → hash_fraction D forged ≡ some div
      → D.le (algorand_sum D 0 w (fraction D threshold W)) div ≡ true
      → D.lt div (algorand_sum D fuel w (fraction D threshold W)) ≡ true
      → (j : ℕ) × (verify D O fuel (record dp { hash = forged }) threshold W b ≡ some (b, pos j))
        × (D.le (algorand_sum D j w (fraction D threshold W)) div ≡ true)
        × (D.lt div (algorand_sum D (j + 1) w (fraction D threshold W)) ≡ true)
  unfolding verify
  verify-sortition_forged N threshold w W value a b k md forged div {a'} {dp} ek ep em em' es ew h
        read above under =
      let s = sortition-Selected threshold w W value a k md ek ep em h in
      let ok : verify_with O b.seed dp.proof dp.pk b.f_hash ≡ some true =
        rw (es, em', s.keyed) (verify_with_of_sign O L a.seed dp.proof k md s.signed) in
      let (j, chosen, at, below, _) =
        select_total D N div w (fraction D threshold W) fuel above under in
      (j, ground arith, at, below)
