-- ===== src/Blockchain/Algorand.antt =====
-- blockchain/Algorand.h and blockchain/Algorand.cpp: the state of the class and the operations that
-- need no floating point. `none` is undefined behaviour: a write or read outside an array or string.
-- Sums of `int` are unbounded here (a signed overflow is undefined in the source).
pub mod Round
use Prim.Native.String.{String}
use mathlib.Core.Option
use algorand.Prelude.{
  ℕ, zero, suc, ◌+◌, ◌-◌, ◌*◌, ◌%◌, ◌^◌, ◌≡◌, List, [], ◌∷◌, Option, none, some, Text, codes,
  insert, leb, ltb, if◌then◌else◌, set, replicate, length, get_elem?,
}
use algorand.Prelude.Fallible.{◌>>=◌, ◌>>◌, assert}
use algorand.Prelude.Int.{ℤ, pos, negsuc, pos_part, neg_part, ◌+ℤ◌}
use algorand.Blockchain.Vrf.{Openssl, generate_pri_key, privkey_to_pubkey, key_to_string}

pub data QryType : Type 0 where
  algorand_init algorand_getkey algorand_sort algorand_verify algorand_count_v algorand_reset :
      QryType

pub record DataPackage : Type 0 where
  pub seed : Text
  pub hash : Text
  pub proof : Text
  pub value : Text
  pub j : ℤ
  pub node_id : ℤ
  pub pk : Text
  pub type : QryType

abbrev pub key_length : ℕ
key_length = 2048

pub record Algorand (O : Openssl) : Type 0 where
  pub publickeys : List Text
  pub wallet : List (Text × ℤ)
  pub round : ℕ
  pub seed : Text
  pub step : ℕ
  pub user_count : ℕ
  pub sum_w : ℤ
  pub m_id : ℕ
  pub counts : List (Text × ℤ)
  pub countvotes_pk : List (Text × ℤ)
  pub f_hash : Option O.Md
  pub m_publickey : Option O.Key
  pub m_privatekey : Option O.Key
  pub m_wallet : ℕ
  pub m_block : Text

-- `seed[i] = m_block[i]` for each i below seed.size(); reading at `m_block.size()` gives '\0'
unfoldable pub copy_prefix : ℕ → Text → Option Text
copy_prefix zero block = some []
copy_prefix (suc n) (c ∷ block) = Option.map (λ s. c ∷ s) (copy_prefix n block)
copy_prefix (suc zero) [] = some (0 ∷ [])
copy_prefix (suc (suc n)) [] = none

-- the remainder of `int` keeps the sign of the dividend
rem_100 : ℤ → ℤ
rem_100 (pos n) = pos (n % 100)
rem_100 (negsuc n) = if leb 1 ((n + 1) % 100) then negsuc ((n + 1) % 100 - 1) else pos 0

to_uint64 : ℤ → ℕ
to_uint64 (pos n) = n % 2 ^ 64
to_uint64 (negsuc n) = (2 ^ 64 - suc n % 2 ^ 64) % 2 ^ 64

amount_of : ℤ → ℤ
unfolding rem_100
amount_of seed = let half = rem_100 seed +ℤ pos 1 in half +ℤ half

module _ (O : Openssl) where
  open O use {Key}

  -- `generated` is the key that RSA_generate_key returns. The maps start empty; fields that the source
  -- leaves uninitialised are overwritten here.
  unfoldable pub init : Key → ℕ → Option (Algorand O × Text)
  unfolding generate_pri_key privkey_to_pubkey key_to_string
  init generated node_id = do
    assert (ltb node_id 4)
    let m_privatekey = generate_pri_key O key_length generated
    let m_publickey = privkey_to_pubkey O m_privatekey
    pk ← key_to_string O m_publickey
    some (
      record {
        publickeys = set (replicate 4 []) node_id pk;
        wallet = [];
        round = 0;
        seed = codes "FWLKFWLKFWLKFWLKFWLK";
        step = 0;
        user_count = 4;
        sum_w = pos 100;
        m_id = node_id;
        counts = [];
        countvotes_pk = [];
        f_hash = O.sha1;
        m_publickey = m_publickey;
        m_privatekey = m_privatekey;
        m_wallet = 100;
        m_block = codes "0";
      },
      pk,
    )

  -- `node_id <= 3` admits a negative index, which writes outside `publickeys`
  unfoldable pub getkey : Text → ℤ → Algorand O → Option (Algorand O)
  getkey pk (negsuc n) a = none
  getkey pk (pos node_id) a =
      if leb node_id 3
      then some (record a {
        publickeys = set a.publickeys node_id pk;
        wallet = insert pk (pos 100) a.wallet;
        sum_w = a.sum_w +ℤ pos 100;
      })
      else some a

  unfoldable pub reset : Algorand O → Option (Algorand O)
  unfolding copy_prefix
  reset a =
      Option.map (λ s. record a { counts = []; countvotes_pk = []; seed = s })
        (copy_prefix (length a.seed) a.m_block)

  -- The source assigns `amout`, which it does not declare; here it is the `amount` of the line above.
  unfoldable pub execute : ℤ → Algorand O → Option (Algorand O)
  unfolding amount_of to_uint64
  execute seed a =
      let amount = amount_of seed in
      Option.map
        (λ pk. record a { m_wallet = to_uint64 amount; wallet = insert pk amount a.wallet })
        (get_elem? a.publickeys a.m_id)
