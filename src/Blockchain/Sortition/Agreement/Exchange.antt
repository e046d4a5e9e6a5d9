-- ===== src/Blockchain/Sortition/Agreement/Exchange.antt =====
-- sortition and verify at nodes that have just started and exchanged keys (blockchain/Algorand.cpp).
use algorand.Prelude.{
  ℕ, ◌<◌, ◌≡◌, ◌∙◌, sym, some, Text, lookup, insert, lookup-insert, text_eq_refl, arith,
}
use algorand.Prelude.Int.{ℤ, pos}
use algorand.Blockchain.Double.{Doubles}
use algorand.Blockchain.Vrf.{Openssl}
use algorand.Blockchain.Vrf.Laws.{RsaLaws}
use algorand.Blockchain.Algorand.{Algorand, DataPackage, init, getkey}
use algorand.Blockchain.Algorand.Round.{init-keys}
use algorand.Blockchain.Sortition.{sortition, verify}
use algorand.Blockchain.Sortition.Agreement.{sortition-Selected, verify-sortition}

module _ (D : Doubles) (O : Openssl) (L : RsaLaws O) (fuel : ℕ) where
  -- Under the laws of raw RSA and where SHA-1 is known, for two servers that have started, of which
  -- the second one has the first one's key: what the first one draws with the stake of 100 that a key
  -- brings, the second one accepts, with the number of votes of the package.
  pub verify-exchange :
      (ka kb : O.Key) (md : O.Md) (ida idb : ℕ) (threshold W : ℤ) (value pka pkb : Text)
      {a b a' b' : Algorand O} {dp : DataPackage}
      → ida < 4
      → idb < 4
      → O.sha1 ≡ some md
      → init O ka ida ≡ some (a, pka)
      → init O kb idb ≡ some (b, pkb)
      → getkey O pka (pos ida) b ≡ some b'
      → sortition D O fuel threshold (pos 100) W value a ≡ some (a', dp)
      → verify D O fuel dp threshold W b' ≡ some (b', dp.j)
  unfolding getkey
  verify-exchange ka kb md ida idb threshold W value pka pkb {a} {b} {a'} {b'} {dp} la lb sha ia ib
        gk drawn =
      let (a₀, pka₀, ea, priva, puba, hasha, _, _, seeda, texta, _) = init-keys O ka ida la in
      let (b₀, pkb₀, eb, privb, pubb, hashb, _, _, seedb, textb, _) = init-keys O kb idb lb in
      let same_a : a₀ ≡ a = ground arith in
      let same_b : b₀ ≡ b = ground arith in
      let same_pk : pka₀ ≡ pka = ground arith in
      let priv : a.m_privatekey ≡ some ka = cc in
      let pub_half : a.m_publickey ≡ some (O.public_of ka) = cc in
      let hash : a.f_hash ≡ some md = cc in
      let seeds : b.seed ≡ a.seed = cc in
      let b_hash : b.f_hash ≡ some md = cc in
      let text : pka ≡ O.write_public (O.public_of ka) = cc in
      let seed' : b'.seed ≡ b.seed = ground arith in
      let hash' : b'.f_hash ≡ b.f_hash = ground arith in
      let wallet : b'.wallet ≡ insert pka (pos 100) b.wallet = ground arith in
      let s =
        sortition-Selected D O L fuel threshold (pos 100) W value a ka md priv pub_half hash
          drawn in
      let keyed : dp.pk ≡ pka = s.keyed ∙ sym text in
      let held : lookup pka (insert pka (pos 100) b.wallet) ≡ some (pos 100) =
        ground (arith, lookup-insert pka pka (pos 100) b.wallet, text_eq_refl pka) in
      verify-sortition D O L fuel threshold (pos 100) W value a b' ka md priv pub_half hash
        (hash' ∙ b_hash) (seed' ∙ seeds) (rw (keyed, wallet, held)) drawn
