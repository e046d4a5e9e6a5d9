-- ===== src/Transport/Wire/Laws.antt =====
-- What writers leave in the buffer and what readers take from it, composed field by field.
pub mod Frames
pub mod Lists
use algorand.Prelude.{
  ℕ, zero, suc, ◌+◌, ◌≡◌, refl, sym, ◌∙◌, List, [], ◌∷◌, ◌++◌, Option, some, Text, length,
  length-append, arith, update, ◌*◌, subst, append_nil, Bool, true, ==_refl, ◌≤◌,
}
use algorand.Blockchain.Algorand.{copy_prefix}
use algorand.Transport.Wire.{
  Buffer, Wire, put_bytes, get_bytes, Writer, ◌⨾◌, copy_buf, copy_string, Reader, ◌>>=◌, copy_val,
  buf_to_string, skip, check, give, lift, place_write, place_read, copy_list, read_list,
  frame_write, frame_read,
}

-- What is documented of the representation of the values that fit a type.
pub record WireLaws {A : Type 0} (W : Wire A) (Fits : A → Type 0) : Type 0 where
  pub length-to_bytes : (v : A) → length (W.to_bytes v) ≡ W.size
  pub of_bytes-to_bytes : (v : A) → Fits v → W.of_bytes (W.to_bytes v) ≡ v

pub put_bytes-append :
    (bs cs : List ℕ) (buf : Buffer) (p : ℕ)
    → put_bytes (bs ++ cs) buf p ≡ put_bytes cs (put_bytes bs buf p) (p + length bs)
unfolding put_bytes
put_bytes-append [] cs buf p = let zero_more : p + 0 ≡ p = omega arith in rw zero_more
put_bytes-append (b ∷ bs) cs buf p =
    let next : p + suc (length bs) ≡ p + 1 + length bs = omega arith in
    rw (next, put_bytes-append bs cs (update buf p b) (p + 1))

-- a write does not change what lies before it
put_bytes_before : (bs : List ℕ) (buf : Buffer) (p q : ℕ) → q + 1 ≤ p → put_bytes bs buf p q ≡ buf q
unfolding put_bytes
put_bytes_before [] buf p q h = refl
put_bytes_before (b ∷ bs) buf p q h =
    put_bytes_before bs (update buf p b) (p + 1) q (omega arith) ∙ ground arith

pub get_bytes-put_bytes :
    (bs : List ℕ) (buf : Buffer) (p : ℕ) → get_bytes (length bs) (put_bytes bs buf p) p ≡ bs
unfolding put_bytes get_bytes
get_bytes-put_bytes [] buf p = refl
get_bytes-put_bytes (b ∷ bs) buf p =
    let first = put_bytes_before bs (update buf p b) (p + 1) p (omega arith) in
    rw (get_bytes-put_bytes bs (update buf p b) (p + 1), first, ==_refl p)

pub get_bytes-append :
    (bs cs : List ℕ) (buf : Buffer) (p : ℕ)
    → get_bytes (length (bs ++ cs)) buf p ≡ bs ++ cs
    → (get_bytes (length bs) buf p ≡ bs) × (get_bytes (length cs) buf (p + length bs) ≡ cs)
unfolding get_bytes
get_bytes-append [] cs buf p h = let zero_more : p + 0 ≡ p = omega arith in (refl, rw zero_more h)
get_bytes-append (b ∷ bs) cs buf p h =
    let (l, r) = get_bytes-append bs cs buf (p + 1) (cc) in
    let next : p + suc (length bs) ≡ p + 1 + length bs = omega arith in
    let head : buf p ≡ b = cc in (rw (head, l), rw next r)

-- the writer puts these bytes
pub record Writes (w : Writer) (bs : List ℕ) : Type 0 where
  pub writes : (buf : Buffer) (p : ℕ) → w buf p ≡ some (put_bytes bs buf p, p + length bs)

-- where the bytes are these, the reader gives the value and moves past them
pub record Reads {A : Type 0} (r : Reader A) (bs : List ℕ) (a : A) : Type 0 where
  pub reads :
      (buf : Buffer) (p : ℕ) → get_bytes (length bs) buf p ≡ bs → r buf p ≡ some (a, p + length bs)

pub copy_buf-Writes :
    {A : Type 0} {W : Wire A} {Fits : A → Type 0} (L : WireLaws W Fits) (v : A)
    → Writes (copy_buf W v) (W.to_bytes v)
unfolding copy_buf
copy_buf-Writes L v = record { writes = λ buf p. rw (L.length-to_bytes v) }

pub copy_val-Reads :
    {A : Type 0} {W : Wire A} {Fits : A → Type 0} (L : WireLaws W Fits) (v : A)
    → Fits v
    → Reads (copy_val W) (W.to_bytes v) v
unfolding copy_val
copy_val-Reads L v fit = record {
  reads = λ buf p h. rw (sym (L.length-to_bytes v), h, L.of_bytes-to_bytes v fit);
}

pub ⨾-Writes :
    {w w' : Writer} {bs cs : List ℕ} → Writes w bs → Writes w' cs → Writes (w ⨾ w') (bs ++ cs)
⨾-Writes {w} {w'} {bs} {cs} h h' = record {
  writes = λ buf p.
      let assoc : p + length bs + length cs ≡ p + (length bs + length cs) = omega arith in
      rw (
        h.writes buf p,
        ◌⨾◌,
        h'.writes (put_bytes bs buf p) (p + length bs),
        put_bytes-append bs cs buf p,
        length-append bs cs,
        assoc,
      );
}

pub >>=-Reads :
    {A B : Type 0} {r : Reader A} (k : A → Reader B) {bs cs : List ℕ} {a : A} {b : B}
    → Reads r bs a
    → Reads (k a) cs b
    → Reads (r >>= k) (bs ++ cs) b
>>=-Reads k {bs} {cs} h h' = record {
  reads = λ buf p e.
      let (l, r) = get_bytes-append bs cs buf p e in
      let assoc : p + length bs + length cs ≡ p + (length bs + length cs) = omega arith in
      rw (h.reads buf p l, ◌>>=◌, h'.reads buf (p + length bs) r, length-append bs cs, assoc);
}

copy_prefix-length : (s : Text) → copy_prefix (length s) s ≡ some s
unfolding copy_prefix
copy_prefix-length [] = refl
copy_prefix-length (c ∷ s) = rw (copy_prefix-length s)

pub copy_string-Writes : (n : ℕ) (s : Text) → n ≡ length s → Writes (copy_string n s) s
unfolding copy_string
copy_string-Writes n s e = record { writes = λ buf p. rw (e, copy_prefix-length s, copy_string, e) }

pub buf_to_string-Reads : (n : ℕ) (s : Text) → n ≡ length s → Reads (buf_to_string n) s s
unfolding buf_to_string
buf_to_string-Reads n s e = record { reads = λ buf p h. rw (e, h) }

pub give-Reads : {A : Type 0} (a : A) → Reads (give a) [] a
give-Reads a = record { reads = λ buf p h. let zero_more : p + 0 ≡ p = omega arith in rw zero_more }

pub lift-Reads : {A : Type 0} (x : Option A) (a : A) → x ≡ some a → Reads (lift x) [] a
lift-Reads x a e = record {
  reads = λ buf p h. let zero_more : p + 0 ≡ p = omega arith in rw (e, zero_more);
}

pub check-Writes : (b : Bool) → b ≡ true → Writes (check b) []
unfolding put_bytes
check-Writes b e = record {
  writes = λ buf p. let zero_more : p + 0 ≡ p = omega arith in rw (e, zero_more);
}

pub skip-Writes : Writes skip []
unfolding put_bytes
skip-Writes = record { writes = λ buf p. let zero_more : p + 0 ≡ p = omega arith in rw zero_more }

-- what a writer has put, the reader of the same bytes gets back
pub round_trip :
    {A : Type 0} {w : Writer} {r : Reader A} {bs : List ℕ} {a : A}
    → Writes w bs
    → Reads r bs a
    → (buf : Buffer) (p : ℕ)
    → (buf' : Buffer) × (w buf p ≡ some (buf', p + length bs))
      × (r buf' p ≡ some (a, p + length bs))
round_trip {bs} h h' buf p = (
  put_bytes bs buf p,
  h.writes buf p,
  h'.reads (put_bytes bs buf p) p (get_bytes-put_bytes bs buf p),
)
