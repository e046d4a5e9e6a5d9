-- ===== src/Transport/Wire/Header/Framed.antt =====
-- The functions of a class around its own fields: the header first, then what the class writes or reads
-- (transport/message.cpp).
use algorand.Prelude.{
  ℕ, ◌+◌, ◌≡◌, refl, sym, ap, ◌∙◌, List, ◌++◌, length, length-append, append_assoc,
}
use algorand.Prelude.Int.{ℤ}
use algorand.Transport.Messages.{RemReqType, Message}
use algorand.Transport.Wire.{Writer, Reader, frame_write, frame_read, place_write, place_read}
use algorand.Transport.Wire.Laws.{Writes, Reads}
use algorand.Transport.Wire.Laws.Frames.{
  frame_write-Writes, frame_read-Reads, place_write-Writes, place_read-Reads,
}
use algorand.Transport.Wire.Header.{Layout, mget_size, mcopy_to_buf, mcopy_from_buf}
use algorand.Transport.Wire.Header.RoundTrip.{
  LayoutLaws, FitsMessage, header_bytes, received, mcopy_to_buf-Writes, mcopy_from_buf-Reads,
  length-header_bytes, mget_size-received,
}
use algorand.System.Node.{Platform, Config}
use algorand.System.Send.{create_message}

module _ (P : Platform) (c : Config) (W : Layout P) (FitsInt : ℤ → Type 0)
    (L : LayoutLaws P W FitsInt) where
  open P.D use {Double}

  -- the header of a message that was written at `now` and is read at `now'` into a new one
  abbrev pub fresh_copy : Double → Double → RemReqType → Message Double → Message Double
  fresh_copy now now' rtype m = received P W FitsInt L now now' (create_message P c rtype) m

  pub frame_to_buf-Writes :
      {body : Writer} {size : ℕ} {cs : List ℕ} (now : Double) (m : Message Double)
      → FitsMessage FitsInt m
      → Writes body cs
      → mget_size P W m + length cs ≡ size
      → Writes
          (frame_write (mcopy_to_buf P W now m) (mget_size P W m) body size)
          (header_bytes P W FitsInt L now m ++ cs)
  frame_to_buf-Writes now m f h e =
      frame_write-Writes (mcopy_to_buf-Writes P W FitsInt L now m f)
        (length-header_bytes P W FitsInt L now m f) h (sym e)

  pub frame_from_buf-Reads :
      {A : Type 0} (body : Message Double → Reader A) (size : A → ℕ) {cs : List ℕ} {a : A}
      (now now' : Double) (rtype : RemReqType) (m : Message Double)
      → FitsMessage FitsInt m
      → Reads (body (fresh_copy now now' rtype m)) cs a
      → mget_size P W (fresh_copy now now' rtype m) + length cs ≡ size a
      → Reads
          (frame_read
            (mcopy_from_buf P W now' (create_message P c rtype))
            (mget_size P W)
            body
            size)
          (header_bytes P W FitsInt L now m ++ cs)
          a
  unfolding create_message
  frame_from_buf-Reads body size {cs} now now' rtype m f h e =
      let same = mget_size-received P W FitsInt L now now' (create_message P c rtype) m in
      frame_read-Reads (mget_size P W) body size _
        (mcopy_from_buf-Reads P W FitsInt L now now' (create_message P c rtype) m
          (record { signature = refl; pub_key = refl; dp = refl }) f)
        (length-header_bytes P W FitsInt L now m f ∙ sym same) h (sym e)

  pub place_to_buf-Writes :
      {body : Writer} {size : ℕ} {cs : List ℕ} (now : Double) (m : Message Double)
      → FitsMessage FitsInt m
      → Writes body cs
      → mget_size P W m + length cs ≡ size
      → Writes
          (place_write (mcopy_to_buf P W now m) (mget_size P W m) body size)
          (header_bytes P W FitsInt L now m ++ cs)
  place_to_buf-Writes now m f h e =
      place_write-Writes (mcopy_to_buf-Writes P W FitsInt L now m f)
        (length-header_bytes P W FitsInt L now m f) h (sym e)

  pub place_from_buf-Reads :
      {A : Type 0} (body : Message Double → Reader A) (size : A → ℕ) {cs : List ℕ} {a : A}
      (now now' : Double) (rtype : RemReqType) (m : Message Double)
      → FitsMessage FitsInt m
      → Reads (body (fresh_copy now now' rtype m)) cs a
      → mget_size P W (fresh_copy now now' rtype m) + length cs ≡ size a
      → Reads
          (place_read
            (mcopy_from_buf P W now' (create_message P c rtype))
            (mget_size P W)
            body
            size)
          (header_bytes P W FitsInt L now m ++ cs)
          a
  unfolding create_message
  place_from_buf-Reads body size {cs} now now' rtype m f h e =
      let same = mget_size-received P W FitsInt L now now' (create_message P c rtype) m in
      place_read-Reads (mget_size P W) body size _
        (mcopy_from_buf-Reads P W FitsInt L now now' (create_message P c rtype) m
          (record { signature = refl; pub_key = refl; dp = refl }) f)
        (length-header_bytes P W FitsInt L now m f ∙ sym same) h (sym e)

  pub length-framed :
      (cs : List ℕ) {size : ℕ} (now : Double) (m : Message Double)
      → FitsMessage FitsInt m
      → mget_size P W m + length cs ≡ size
      → length (header_bytes P W FitsInt L now m ++ cs) ≡ size
  length-framed cs now m f e = rw (
    length-append (header_bytes P W FitsInt L now m) cs,
    length-header_bytes P W FitsInt L now m f,
    e,
  )

  -- what follows the header does not change how the bytes start
  pub framed-rtype :
      {bs : List ℕ} (r : RemReqType) (cs : List ℕ)
      → (rest : List ℕ) × (bs ≡ W.rtype.to_bytes r ++ rest)
      → (rest : List ℕ) × (bs ++ cs ≡ W.rtype.to_bytes r ++ rest)
  framed-rtype r cs (rest, e) =
      (rest ++ cs, ap (λ x. x ++ cs) e ∙ append_assoc (W.rtype.to_bytes r) rest cs)
