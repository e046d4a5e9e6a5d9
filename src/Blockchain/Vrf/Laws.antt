-- ===== src/Blockchain/Vrf/Laws.antt =====
-- Signing and verifying with the verifiable random function (blockchain/vrf_rsa_util.cpp).
use algorand.Prelude.{
  ℕ, suc, ◌-◌, ◌<◌, ◌≡◌, ◌∙◌, refl, inl, inr, true, ◌∷◌, some, Option-cases, Text, text_eq_iff,
  text_eq_refl, length, arith,
}
use algorand.Blockchain.Vrf.{Openssl, vrf_rsa_sign, vrf_rsa_verify, verify_with}

-- What OpenSSL documents of raw RSA. The public operation takes back the private one on the blocks of the modulus'
-- size whose first byte is zero, and RSA_size counts the modulus' bytes.
pub record RsaLaws (O : Openssl) : Type 0 where
  pub size_eq : (k : O.Key) → O.num_bytes k ≡ O.rsa_size k
  pub size_pos : (k : O.Key) → 0 < O.rsa_size k
  pub public_size : (k : O.Key) → O.rsa_size (O.public_of k) ≡ O.rsa_size k
  pub length-mgf1 :
      (n : ℕ) (input : Text) (md : O.Md) {m : Text} → O.mgf1 n input md ≡ some m → length m ≡ n
  pub length-encrypt :
      (m : Text) (k : O.Key) {s : Text} → O.private_encrypt m k ≡ some s → length s ≡ O.rsa_size k
  pub encrypt_block :
      (m : Text) (k : O.Key)
      → suc (length m) ≡ O.rsa_size k
      → (s : Text) × (O.private_encrypt (0 ∷ m) k ≡ some s)
  pub decrypt-encrypt :
      (m : Text) (k : O.Key) {s : Text}
      → O.private_encrypt m k ≡ some s
      → O.public_decrypt s (O.public_of k) ≡ some m
  pub read-write :
      (k : O.Key) → O.read_public (O.write_public (O.public_of k)) ≡ some (O.public_of k)

-- A key that RSA_generate_key has made: the private operation takes back the public one too, on blocks of the
-- modulus' size that are below it.
pub record IsPair (O : Openssl) (k : O.Key) : Type 0 where
  pub encrypt-decrypt :
      (s m : Text)
      → length s ≡ O.rsa_size k
      → O.public_decrypt s (O.public_of k) ≡ some m
      → O.private_encrypt m k ≡ some s

module _ (O : Openssl) (L : RsaLaws O) where
  open O use {Key, Md, mgf1, private_encrypt, public_decrypt}

  num_bytes-public : (k : Key) → O.num_bytes (O.public_of k) ≡ O.num_bytes k
  num_bytes-public k = cc (L.size_eq (O.public_of k), L.public_size k, L.size_eq k)

  -- Under the laws of raw RSA, what a key signs, its public half verifies: signing succeeds wherever the mask can
  -- be computed and the buffer has the key's size, the proof has that size, and verification accepts it.
  pub verify-sign :
      (input : Text) (k : Key) (md : Md) (m : Text)
      → mgf1 (O.num_bytes k - 1) input md ≡ some m
      → (s : Text) × (vrf_rsa_sign O input (O.rsa_size k) (some k) (some md) ≡ some s)
        × (length s ≡ O.rsa_size k)
        × (vrf_rsa_verify O input s (some (O.public_of k)) (some md) ≡ true)
  unfolding vrf_rsa_sign vrf_rsa_verify
  verify-sign input k md m em =
      let sized : length m ≡ O.num_bytes k - 1 = L.length-mgf1 _ input md em in
      let whole : suc (length m) ≡ O.rsa_size k = omega (arith, L.size_eq k, L.size_pos k) in
      let (s, es) = L.encrypt_block m k whole in
      let ls : length s ≡ O.rsa_size k = L.length-encrypt _ k es in
      let em' : mgf1 (O.num_bytes (O.public_of k) - 1) input md ≡ some m =
        rw (num_bytes-public k) em in
      let ed : public_decrypt s (O.public_of k) ≡ some (0 ∷ m) = L.decrypt-encrypt (0 ∷ m) k es in
      (s, ground arith, ls, ground (arith, L.public_size k, text_eq_refl (0 ∷ m)))

  -- the same for a signature that is at hand
  verify_of_sign :
      (input s : Text) (k : Key) (md : Md)
      → vrf_rsa_sign O input (O.rsa_size k) (some k) (some md) ≡ some s
      → vrf_rsa_verify O input s (some (O.public_of k)) (some md) ≡ true
  verify_of_sign input s k md h = elim (Option-cases (mgf1 (O.num_bytes k - 1) input md)) [
    | inl e ↦ unfold vrf_rsa_sign in ground (arith)
    | inr (m, em) ↦ let (s', sign, size, ok) = verify-sign input k md m em in ground (arith)
  ]

  -- the same with the text of the public half
  pub verify_with_of_sign :
      (input s : Text) (k : Key) (md : Md)
      → vrf_rsa_sign O input (O.rsa_size k) (some k) (some md) ≡ some s
      → verify_with O input s (O.write_public (O.public_of k)) (some md) ≡ some true
  unfolding verify_with
  verify_with_of_sign input s k md h = rw (L.read-write k, verify_of_sign input s k md h) refl

  verify_inv :
      (input s : Text) (k : Key) (md : Md)
      → vrf_rsa_verify O input s (some k) (some md) ≡ true
      → (m : Text) × (mgf1 (O.num_bytes k - 1) input md ≡ some m)
        × (public_decrypt s k ≡ some (0 ∷ m))
        × (length s ≡ O.rsa_size k)
  unfolding vrf_rsa_verify
  verify_inv input s k md h = elim (Option-cases (mgf1 (O.num_bytes k - 1) input md)) [
    | inl e ↦ ground arith
    | inr (m, em) ↦ elim (Option-cases (public_decrypt s k)) [
      | inl e ↦ ground arith
      | inr (d, ed) ↦ (m, em, ground (arith, text_eq_iff (0 ∷ m) d), ground arith)
    ]
  ]

  -- Under the laws of raw RSA, and for a key pair whose private operation takes back the public one (IsPair):
  -- whatever proof verifies for an input with the public half is the one that signing the input with the key
  -- gives.
  pub sign_of_verify :
      (input s : Text) (k : Key) (md : Md)
      → IsPair O k
      → vrf_rsa_verify O input s (some (O.public_of k)) (some md) ≡ true
      → vrf_rsa_sign O input (O.rsa_size k) (some k) (some md) ≡ some s
  unfolding vrf_rsa_sign
  sign_of_verify input s k md pair h =
      let (m, em, ed, size) = verify_inv input s (O.public_of k) md h in
      let em' : mgf1 (O.num_bytes k - 1) input md ≡ some m = rw (← num_bytes-public k) em in
      let block = size ∙ L.public_size k in
      let es = pair.encrypt-decrypt s (0 ∷ m) block ed in ground arith
