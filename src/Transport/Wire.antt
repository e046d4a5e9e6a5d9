-- ===== src/Transport/Wire.antt =====
-- The buffer of a message, and how transport/message.cpp fills and reads it: the macros COPY_BUF and COPY_VAL
-- (whose header is not in the repository: they copy the bytes of an object and move `ptr` on by its size),
-- buf_to_string and the loops over characters. `none` is a failed assert or a read past the end of a string.
pub mod Laws
pub mod Header
pub mod Indexed
pub mod Checkpoint
pub mod Keys
pub mod Response
pub mod Query
pub mod Nested
pub mod Batch
pub mod Pre
pub mod Requests
pub mod Dispatch
use algorand.Prelude.{
  ℕ, zero, suc, ◌+◌, ◌≡◌, Bool, List, [], ◌∷◌, Option, none, some, Text, length, ◌==◌, update,
}
use algorand.Prelude.Fallible.{assert}
use algorand.Blockchain.Algorand.{copy_prefix}

abbrev pub Buffer : Type 0
Buffer = ℕ → ℕ

-- how the machine represents the values of a type
pub record Wire (A : Type 0) : Type 0 where
  pub size : ℕ
  pub to_bytes : A → List ℕ
  pub of_bytes : List ℕ → A

pub put_bytes : List ℕ → Buffer → ℕ → Buffer
put_bytes [] buf p = buf
put_bytes (b ∷ bs) buf p = put_bytes bs (update buf p b) (p + 1)

pub get_bytes : ℕ → Buffer → ℕ → List ℕ
get_bytes zero buf p = []
get_bytes (suc n) buf p = buf p ∷ get_bytes n buf (p + 1)

-- code that writes at `ptr` and moves it on
abbrev pub Writer : Type 0
Writer = Buffer → ℕ → Option (Buffer × ℕ)

infixr 4 ◌⨾◌
abbrev pub ◌⨾◌ : Writer → Writer → Writer
(w ⨾ w') buf p = elim (w buf p) [ none ↦ none | some (buf', p') ↦ w' buf' p' ]

abbrev pub skip : Writer
skip buf p = some (buf, p)

-- an assert between writes
abbrev pub check : Bool → Writer
check b buf p = elim (assert b) [ none ↦ none | some _ ↦ some (buf, p) ]

pub copy_buf : {A : Type 0} → Wire A → A → Writer
copy_buf W v buf p = some (put_bytes (W.to_bytes v) buf p, p + W.size)

-- `for (i = 0; i < n; i++) { v = text[i]; COPY_BUF(buf, v, ptr); }`
pub copy_string : ℕ → Text → Writer
copy_string n text buf p = elim (copy_prefix n text) [
  | none ↦ none
  | some s ↦ some (put_bytes s buf p, p + n)
]

-- code that reads at `ptr` and moves it on
abbrev pub Reader {ℓ} : Type ℓ → Type ℓ
Reader A = Buffer → ℕ → Option (A × ℕ)

infixl 5 ◌>>=◌ ◌>>◌
abbrev pub ◌>>=◌ {ℓ κ} : {A : Type ℓ} {B : Type κ} → Reader A → (A → Reader B) → Reader B
(r >>= f) buf p = elim (r buf p) [ none ↦ none | some (a, p') ↦ f a buf p' ]

abbrev pub ◌>>◌ {ℓ} : {B : Type ℓ} → Reader (Unit {0}) → Reader B → Reader B
r >> k = r >>= λ _. k

abbrev pub give {ℓ} : {A : Type ℓ} → A → Reader A
give a buf p = some (a, p)

-- a value that the program computes, with its failure
abbrev pub lift {ℓ} : {A : Type ℓ} → Option A → Reader A
lift x buf p = elim x [ none ↦ none | some a ↦ some (a, p) ]

pub copy_val : {A : Type 0} → Wire A → Reader A
copy_val W buf p = some (W.of_bytes (get_bytes W.size buf p), p + W.size)

-- the characters that buf_to_string appends
pub buf_to_string : ℕ → Reader Text
buf_to_string n buf p = some (get_bytes n buf p, p + n)

-- copy_to_buf of a class: the header, then, from where its size says, the rest of the fields, and the assert
-- on the size. The pointer of the caller moves on by the size.
pub frame_write : Writer → ℕ → Writer → ℕ → Writer
frame_write header header_size body size buf p = elim (header buf p) [
  | none ↦ none
  | some (buf1, p1) ↦ elim (body buf1 (p + header_size)) [
    | none ↦ none
    | some (buf2, p2) ↦ elim (assert (p2 == p + size)) [
      | none ↦ none
      | some _ ↦ some (buf2, p + size)
    ]
  ]
]

-- copy_from_buf of a class, the same way
pub frame_read : {M A : Type 0} → Reader M → (M → ℕ) → (M → Reader A) → (A → ℕ) → Reader A
frame_read header header_size body size buf p = elim (header buf p) [
  | none ↦ none
  | some (m, p1) ↦ elim (body m buf (p + header_size m)) [
    | none ↦ none
    | some (a, p2) ↦ elim (assert (p2 == p + size a)) [
      | none ↦ none
      | some _ ↦ some (a, p + size a)
    ]
  ]
]

-- the same for a class whose functions end without the assert
pub place_write : Writer → ℕ → Writer → ℕ → Writer
place_write header header_size body size buf p = elim (header buf p) [
  | none ↦ none
  | some (buf1, p1) ↦ elim (body buf1 (p + header_size)) [
    | none ↦ none
    | some (buf2, p2) ↦ some (buf2, p + size)
  ]
]

pub place_read : {M A : Type 0} → Reader M → (M → ℕ) → (M → Reader A) → (A → ℕ) → Reader A
place_read header header_size body size buf p = elim (header buf p) [
  | none ↦ none
  | some (m, p1) ↦ elim (body m buf (p + header_size m)) [
    | none ↦ none
    | some (a, p2) ↦ some (a, p + size a)
  ]
]

-- `for (i = 0; i < n; i++) COPY_BUF(buf, xs[i], ptr);`
pub copy_list : {A : Type 0} → Wire A → ℕ → List A → Writer
copy_list W zero xs buf p = some (buf, p)
copy_list W (suc n) [] buf p = none
copy_list W (suc n) (x ∷ xs) buf p = (copy_buf W x ⨾ copy_list W n xs) buf p

-- `for (i = 0; i < n; i++) { COPY_VAL(x, buf, ptr); xs.add(x); }`
pub read_list : {A : Type 0} → Wire A → ℕ → Reader (List A)
read_list W zero = give []
read_list W (suc n) = do x ← copy_val W; xs ← read_list W n; give (x ∷ xs)
