-- ===== src/Blockchain/Algorand/Round.antt =====
-- The start, the end of a round and the exchange of keys (blockchain/Algorand.cpp: init, reset, execute,
-- getkey).
use algorand.Prelude.{
  ℕ, zero, suc, ◌*◌, ◌≤◌, ◌<◌, ◌≡◌, refl, ◌∙◌, List, [], ◌∷◌, Option, some, Text, codes, length,
  take, arith, lt→ltb, Option-cases, inl, inr, get_elem?-set_self, get_elem?, set, insert,
}
use algorand.Prelude.Fallible.{◌>>=◌}
use algorand.Prelude.Int.{ℤ, pos, ◌+ℤ◌, int_laws}
use algorand.Blockchain.Vrf.{Openssl}
use algorand.Blockchain.Algorand.{Algorand, init, reset, copy_prefix, getkey}

copy_prefix-take :
    (n : ℕ) (block : Text) → n ≤ length block → copy_prefix n block ≡ some (take n block)
unfolding copy_prefix
copy_prefix-take zero block h = refl
copy_prefix-take (suc n) [] h = absurd (omega arith)
copy_prefix-take (suc n) (c ∷ block) h = rw (copy_prefix-take n block (omega arith))

regroup : (z : ℤ) (n : ℕ) → z +ℤ pos 100 +ℤ pos (100 * n) ≡ z +ℤ pos (100 * suc n)
regroup z n = omega int_laws

module _ (O : Openssl) where
  open O use {Key}

  -- The initialisation of one of the four servers succeeds where the key writes, with a private key, its public
  -- half, the hash function SHA-1, a stake of 100, no votes, the first seed, and the text of the node's own public
  -- key in its place, which is the result.
  pub init-keys :
      (generated : Key) (node_id : ℕ)
      → node_id < 4
      → (a : Algorand O) × (pk : Text) × (init O generated node_id ≡ some (a, pk))
        × (a.m_privatekey ≡ some generated)
        × (a.m_publickey ≡ some (O.public_of generated))
        × (a.f_hash ≡ O.sha1)
        × (a.sum_w ≡ pos 100)
        × (a.counts ≡ [])
        × (a.seed ≡ codes "FWLKFWLKFWLKFWLKFWLK")
        × (pk ≡ O.write_public (O.public_of generated))
        × (get_elem? a.publickeys node_id ≡ some pk)
  unfolding init
  init-keys generated node_id h = elim (Option-cases (init O generated node_id)) [
    | inl e ↦ ground (arith, lt→ltb node_id 4 h)
    | inr ((a, pk), e) ↦
        let inside = lt→ltb node_id 4 h in
        let own : a.publickeys ≡ set ([] ∷ [] ∷ [] ∷ [] ∷ []) node_id pk = ground arith in
        (
          a,
          pk,
          e,
          ground arith,
          ground arith,
          ground arith,
          ground arith,
          ground arith,
          ground arith,
          ground arith,
          rw (own, get_elem?-set_self ([] ∷ [] ∷ [] ∷ [] ∷ []) node_id pk (omega arith)),
        )
  ]

  -- Where the agreed block is at least as long as the seed, the end of a round succeeds: no vote and no
  -- voter is left, the seed's bytes are the first ones of the block, and the rest is unchanged.
  pub reset_lem :
      (a : Algorand O)
      → length a.seed ≤ length a.m_block
      → reset O a
        ≡ some (record a { counts = []; countvotes_pk = []; seed = take (length a.seed) a.m_block })
  unfolding reset
  reset_lem a h = rw (copy_prefix-take (length a.seed) a.m_block h)

  -- the keys of the other nodes, in the order of arrival
  abbrev pub getkeys : List (Text × ℕ) → Algorand O → Option (Algorand O)
  getkeys [] a = some a
  getkeys ((pk, node_id) ∷ keys) a = getkey O pk (pos node_id) a >>= getkeys keys

  abbrev pub AreServers : List (Text × ℕ) → Type 0
  AreServers [] = Unit
  AreServers ((pk, node_id) ∷ keys) = (node_id ≤ 3) × AreServers keys

  -- Each key of a server adds a stake of 100 to the total, and leaves the votes and the seed alone.
  pub getkeys-sum_w :
      (keys : List (Text × ℕ)) (a : Algorand O)
      → AreServers keys
      → (a' : Algorand O) × (getkeys keys a ≡ some a')
        × (a'.sum_w ≡ a.sum_w +ℤ pos (100 * length keys))
        × (a'.counts ≡ a.counts)
        × (a'.seed ≡ a.seed)
  unfolding getkey
  getkeys-sum_w [] a h = (a, refl, omega int_laws, refl, refl)
  getkeys-sum_w ((pk, node_id) ∷ keys) a h =
      let a1 : Algorand O = record a {
        publickeys = set a.publickeys node_id pk;
        wallet = insert pk (pos 100) a.wallet;
        sum_w = a.sum_w +ℤ pos 100;
      } in
      let (a', e, s, c, d) = getkeys-sum_w keys a1 h.1 in
      (a', ground (arith, h.0), s ∙ regroup a.sum_w (length keys), c, d)
