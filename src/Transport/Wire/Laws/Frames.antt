-- ===== src/Transport/Wire/Laws/Frames.antt =====
-- The functions of a class around its header, and its size.
use algorand.Prelude.{ℕ, ◌+◌, ◌≡◌, sym, List, ◌++◌, length, length-append, arith, ==_refl}
use algorand.Transport.Wire.{
  put_bytes, Writer, Reader, place_write, place_read, frame_write, frame_read,
}
use algorand.Transport.Wire.Laws.{put_bytes-append, get_bytes-append, Writes, Reads}

pub frame_write-Writes :
    {header body : Writer} {header_size size : ℕ} {bs cs : List ℕ}
    → Writes header bs
    → length bs ≡ header_size
    → Writes body cs
    → size ≡ header_size + length cs
    → Writes (frame_write header header_size body size) (bs ++ cs)
unfolding frame_write
frame_write-Writes {header} {body} {header_size} {size} {bs} {cs} h e h' e' = record {
  writes = λ buf p.
      let fits : p + length bs + length cs ≡ p + size = omega arith in
      let whole : p + size ≡ p + (length bs + length cs) = omega arith in
      rw (
        h.writes buf p,
        frame_write,
        sym e,
        h'.writes (put_bytes bs buf p) (p + length bs),
        fits,
        ==_refl (p + size),
        put_bytes-append bs cs buf p,
        length-append bs cs,
        whole,
      );
}

pub frame_read-Reads :
    {M A : Type 0} {header : Reader M} (header_size : M → ℕ) (body : M → Reader A) (size : A → ℕ)
    {bs cs : List ℕ} (m : M) {a : A}
    → Reads header bs m
    → length bs ≡ header_size m
    → Reads (body m) cs a
    → size a ≡ header_size m + length cs
    → Reads (frame_read header header_size body size) (bs ++ cs) a
unfolding frame_read
frame_read-Reads header_size body size {bs} {cs} m {a} h e h' e' = record {
  reads = λ buf p x.
      let (l, r) = get_bytes-append bs cs buf p x in
      let fits : p + length bs + length cs ≡ p + size a = omega arith in
      let whole : p + size a ≡ p + (length bs + length cs) = omega arith in
      rw (
        h.reads buf p l,
        frame_read,
        sym e,
        h'.reads buf (p + length bs) r,
        fits,
        ==_refl (p + size a),
        length-append bs cs,
        whole,
      );
}

pub place_write-Writes :
    {header body : Writer} {header_size size : ℕ} {bs cs : List ℕ}
    → Writes header bs
    → length bs ≡ header_size
    → Writes body cs
    → size ≡ header_size + length cs
    → Writes (place_write header header_size body size) (bs ++ cs)
unfolding place_write
place_write-Writes {header} {body} {header_size} {size} {bs} {cs} h e h' e' = record {
  writes = λ buf p.
      let whole : p + size ≡ p + (length bs + length cs) = omega arith in
      rw (
        h.writes buf p,
        place_write,
        sym e,
        h'.writes (put_bytes bs buf p) (p + length bs),
        put_bytes-append bs cs buf p,
        length-append bs cs,
        whole,
      );
}

pub place_read-Reads :
    {M A : Type 0} {header : Reader M} (header_size : M → ℕ) (body : M → Reader A) (size : A → ℕ)
    {bs cs : List ℕ} (m : M) {a : A}
    → Reads header bs m
    → length bs ≡ header_size m
    → Reads (body m) cs a
    → size a ≡ header_size m + length cs
    → Reads (place_read header header_size body size) (bs ++ cs) a
unfolding place_read
place_read-Reads header_size body size {bs} {cs} m {a} h e h' e' = record {
  reads = λ buf p x.
      let (l, r) = get_bytes-append bs cs buf p x in
      let whole : p + size a ≡ p + (length bs + length cs) = omega arith in
      rw (
        h.reads buf p l,
        place_read,
        sym e,
        h'.reads buf (p + length bs) r,
        length-append bs cs,
        whole,
      );
}
