-- ===== src/Blockchain/Vrf.antt =====
-- blockchain/vrf_rsa_util.cpp: the verifiable random function, a full-domain-hash RSA signature.
-- OpenSSL is a parameter: `none` stands for the failure code of the call.
pub mod Laws
use mathlib.Core.Option
use Prim.Native.Nat.{bit_or}
use algorand.Prelude.{
  ℕ, zero, suc, ◌-◌, ◌≡◌, Bool, true, false, ◌&&◌, not, List, [], ◌∷◌, Option, none, some, Text,
  text_eq, length, ltb, ◌==◌, if◌then◌else◌,
}
use algorand.Prelude.Fallible.{◌>>=◌}

pub record Openssl : Type 1 where
  -- `RSA` and `EVP_MD`
  pub Key : Type 0
  pub Md : Type 0
  pub rsa_size : Key → ℕ
  -- BN_num_bytes(key->n)
  pub num_bytes : Key → ℕ
  -- a key with copies of `n` and `e`
  pub public_of : Key → Key
  pub mgf1 : ℕ → Text → Md → Option Text
  -- with RSA_NO_PADDING
  pub private_encrypt : Text → Key → Option Text
  pub public_decrypt : Text → Key → Option Text
  -- EVP_DigestInit_ex, EVP_DigestUpdate and EVP_DigestFinal_ex
  pub digest : Md → Text → Option Text
  -- PEM_write_bio_RSAPublicKey, and PEM_read_bio_RSAPublicKey
  pub write_public : Key → Text
  pub read_public : Text → Option Key
  -- EVP_get_digestbyname("sha1")
  pub sha1 : Option Md

module _ (O : Openssl) where
  open O use {Key, Md, rsa_size, num_bytes, mgf1, private_encrypt, public_decrypt, digest}

  -- `generated` is what RSA_generate_key returns
  unfoldable pub generate_pri_key : ℕ → Key → Option Key
  generate_pri_key key_length generated = if ltb key_length 1024 then none else some generated

  unfoldable pub privkey_to_pubkey : Option Key → Option Key
  privkey_to_pubkey pri_key = Option.map O.public_of pri_key

  unfoldable pub key_to_string : Option Key → Option Text
  key_to_string pri_key = Option.map O.write_public pri_key

  unfoldable pub get_key_len : Option Key → ℕ
  get_key_len none = 0
  get_key_len (some key) = rsa_size key

  -- the buffer `mask`: a zero byte, then the MGF1 mask of the data
  mask_of : Text → Key → Md → Option Text
  mask_of input key hash = Option.map (λ m. 0 ∷ m) (mgf1 (num_bytes key - 1) input hash)

  -- `none` is the return value 0, which leaves the buffer `sign` as it was; a signature's length is
  -- the return value.
  unfoldable pub vrf_rsa_sign : Text → ℕ → Option Key → Option Md → Option Text
  unfolding mask_of
  vrf_rsa_sign input sign_len none hash = none
  vrf_rsa_sign input sign_len (some key) none = none
  vrf_rsa_sign input sign_len (some key) (some hash) =
      if ltb sign_len (rsa_size key)
      then none
      else (mask_of input key hash >>= λ mask. private_encrypt mask key)

  same_mask : Text → Text → Option Text → Bool
  same_mask sign mask none = false
  same_mask sign mask (some decrypted) =
      length decrypted == length sign && length mask == length sign && text_eq mask decrypted

  check_mask : Text → Key → Option Text → Bool
  unfolding same_mask
  check_mask sign key none = false
  check_mask sign key (some mask) = same_mask sign mask (public_decrypt sign key)

  unfoldable pub vrf_rsa_verify : Text → Text → Option Key → Option Md → Bool
  unfolding check_mask mask_of
  vrf_rsa_verify input sign none hash = false
  vrf_rsa_verify input sign (some key) none = false
  vrf_rsa_verify input sign (some key) (some hash) =
      length sign == rsa_size key && check_mask sign key (mask_of input key hash)

  -- vrf_rsa_verify with the key that string_to_key leaves for a text. Where it reads none, the RSA has no modulus, on
  -- which RSA_size faults; only the hash function is tested before that.
  unfoldable pub verify_with : Text → Text → Text → Option Md → Option Bool
  verify_with input sign pk none = some false
  verify_with input sign pk (some hash) =
      Option.map (λ key. vrf_rsa_verify input sign (some key) (some hash)) (O.read_public pk)

  -- `tmp[proof_len - 1] |= 0x02`; the proofs of this program are not empty
  mark_last : Text → Text
  mark_last [] = []
  mark_last (b ∷ []) = bit_or b 2 ∷ []
  mark_last (b ∷ (c ∷ proof)) = b ∷ mark_last (c ∷ proof)

  unfoldable pub proof_to_output : Text → Md → Option Text
  unfolding mark_last
  proof_to_output proof hash = digest hash (mark_last proof)
