-- ===== src/Transport/Wire/Indexed/RoundTrip.antt =====
-- PBFTPrepMessage, PBFTCommitMessage and ExecuteMessage through a buffer and back (transport/message.cpp).
use algorand.Prelude.{
  ℕ, ◌+◌, ◌^◌, ◌≡◌, ◌<◌, refl, sym, List, [], ◌++◌, some, length, length-append, arith,
}
use algorand.Prelude.Int.{ℤ}
use algorand.Transport.Messages.{RemReqType, Message, IndexedMessage}
use algorand.Transport.Wire.{Buffer, Wire}
use algorand.Transport.Wire.Laws.{
  WireLaws, Writes, Reads, ⨾-Writes, skip-Writes, copy_buf-Writes, copy_string-Writes, >>=-Reads,
  give-Reads, copy_val-Reads, buf_to_string-Reads, round_trip,
}
use algorand.Transport.Wire.Header.{Layout, mget_size}
use algorand.Transport.Wire.Header.RoundTrip.{
  LayoutLaws, FitsMessage, header_bytes, header_bytes-rtype,
}
use algorand.Transport.Wire.Header.Framed.{
  fresh_copy, frame_to_buf-Writes, frame_from_buf-Reads, length-framed, framed-rtype,
}
use algorand.System.Node.{Platform, Config}
use algorand.Transport.Wire.Indexed.{
  indexed_size, indexed_fields, indexed_fields_from, indexed_to_buf, indexed_from_buf,
}

-- `limit` bounds what the type of batch_size holds
pub record FitsIndexed {R : Type 0} (FitsInt : ℤ → Type 0) (limit : ℕ) (m : IndexedMessage R)
    : Type 0 where
  pub base : FitsMessage FitsInt m.base
  pub view : m.view < 2 ^ 64
  pub index : m.index < 2 ^ 64
  pub hash_small : m.hash_size < 2 ^ 64
  pub hash_size : m.hash_size ≡ length m.hash
  pub return_node : m.return_node < 2 ^ 64
  pub end_index : m.end_index < 2 ^ 64
  pub batch_size : m.batch_size < limit

module _ (P : Platform) (c : Config) (W : Layout P) (FitsInt : ℤ → Type 0)
    (L : LayoutLaws P W FitsInt) {batch : Wire ℕ} (limit : ℕ)
    (B : WireLaws batch (λ n. n < limit)) where
  open P.D use {Double}
  open W use {u64}

  field_bytes : IndexedMessage Double → List ℕ
  field_bytes m =
      (u64.to_bytes m.view
        ++ (u64.to_bytes m.index
            ++ (u64.to_bytes m.hash_size
                ++ (m.hash
                    ++ (u64.to_bytes m.return_node
                        ++ (u64.to_bytes m.end_index ++ (batch.to_bytes m.batch_size ++ [])))))))

  indexed_fields-Writes :
      (m : IndexedMessage Double)
      → FitsIndexed FitsInt limit m
      → Writes (indexed_fields P c W batch m) (field_bytes m)
  unfolding indexed_fields field_bytes
  indexed_fields-Writes m f = ⨾-Writes (copy_buf-Writes L.u64 m.view) (
      ⨾-Writes (copy_buf-Writes L.u64 m.index) (
        ⨾-Writes (copy_buf-Writes L.u64 m.hash_size) (
          ⨾-Writes (copy_string-Writes (length m.hash) m.hash refl) (
            ⨾-Writes (copy_buf-Writes L.u64 m.return_node) (
              ⨾-Writes (copy_buf-Writes L.u64 m.end_index)
                (⨾-Writes (copy_buf-Writes B m.batch_size) (skip-Writes)))))))

  indexed_fields_from-Reads :
      (base : Message Double) (m : IndexedMessage Double)
      → FitsIndexed FitsInt limit m
      → Reads (indexed_fields_from P c W batch base) (field_bytes m) (record m { base = base })
  unfolding indexed_fields_from field_bytes
  indexed_fields_from-Reads base m f = >>=-Reads _ (copy_val-Reads L.u64 m.view f.view) (
      >>=-Reads _ (copy_val-Reads L.u64 m.index f.index) (
        >>=-Reads _ (copy_val-Reads L.u64 m.hash_size f.hash_small) (
          >>=-Reads _ (buf_to_string-Reads m.hash_size m.hash f.hash_size) (
            >>=-Reads _ (copy_val-Reads L.u64 m.return_node f.return_node) (
              >>=-Reads _ (copy_val-Reads L.u64 m.end_index f.end_index)
                (>>=-Reads _ (copy_val-Reads B m.batch_size f.batch_size) (give-Reads _)))))))

  length-field_bytes :
      (m : IndexedMessage Double)
      → mget_size P W m.base + length (field_bytes m) ≡ indexed_size P c W batch m
  unfolding field_bytes indexed_size
  length-field_bytes m =
      simp (length-append, L.u64.length-to_bytes, B.length-to_bytes) (omega arith)

  -- the message of the copy that was written at `now` and is read at `now'`
  abbrev pub indexed_copy :
      RemReqType → Double → Double → IndexedMessage Double → IndexedMessage Double
  indexed_copy rtype now now' m = record m {
    base = fresh_copy P c W FitsInt L now now' rtype m.base;
  }

  pub indexed_bytes : Double → IndexedMessage Double → List ℕ
  indexed_bytes now m = header_bytes P W FitsInt L now m.base ++ field_bytes m

  pub indexed_bytes-rtype :
      (now : Double) (m : IndexedMessage Double)
      → (rest : List ℕ) × (indexed_bytes now m ≡ W.rtype.to_bytes m.rtype ++ rest)
  unfolding indexed_bytes
  indexed_bytes-rtype now m =
      framed-rtype P c W FitsInt L m.rtype (field_bytes m)
        (header_bytes-rtype P W FitsInt L now m.base)

  pub length-indexed_bytes :
      (now : Double) (m : IndexedMessage Double)
      → FitsIndexed FitsInt limit m
      → length (indexed_bytes now m) ≡ indexed_size P c W batch m
  unfolding indexed_bytes
  length-indexed_bytes now m f =
      length-framed P c W FitsInt L (field_bytes m) now m.base f.base (length-field_bytes m)

  pub indexed_to_buf-Writes :
      (now : Double) (m : IndexedMessage Double)
      → FitsIndexed FitsInt limit m
      → Writes (indexed_to_buf P c W batch now m) (indexed_bytes now m)
  unfolding indexed_to_buf indexed_bytes
  indexed_to_buf-Writes now m f =
      frame_to_buf-Writes P c W FitsInt L now m.base f.base (indexed_fields-Writes m f)
        (length-field_bytes m)

  pub indexed_from_buf-Reads :
      (rtype : RemReqType) (now now' : Double) (m : IndexedMessage Double)
      → FitsIndexed FitsInt limit m
      → Reads
          (indexed_from_buf P c W batch rtype now')
          (indexed_bytes now m)
          (indexed_copy rtype now now' m)
  unfolding indexed_from_buf indexed_bytes field_bytes
  indexed_from_buf-Reads rtype now now' m f =
      frame_from_buf-Reads P c W FitsInt L (indexed_fields_from P c W batch)
        (indexed_size P c W batch) now now' rtype m.base f.base (indexed_fields_from-Reads _ m f)
        (length-field_bytes (indexed_copy rtype now now' m))

  -- For PBFTPrepMessage, PBFTCommitMessage and ExecuteMessage: under the documented laws of the representations,
  -- when the numbers fit uint64_t, int and the type of batch_size and the sizes are those of the texts,
  -- copy_to_buf succeeds, its assert included, and copy_from_buf on a new message of any request type succeeds too
  -- and gives the fields of the class back with those that the base class sends. Both move on by get_size.
  pub indexed_to_buf-indexed_from_buf :
      (rtype : RemReqType) (now now' : Double) (m : IndexedMessage Double)
      → FitsIndexed FitsInt limit m
      → (buf : Buffer) (p : ℕ)
      → (buf' : Buffer) × (indexed_to_buf P c W batch now m buf p
          ≡ some (buf', p + indexed_size P c W batch m))
        × (indexed_from_buf P c W batch rtype now' buf' p
            ≡ some (indexed_copy rtype now now' m, p + indexed_size P c W batch m))
  indexed_to_buf-indexed_from_buf rtype now now' m f buf p =
      rw (sym (length-indexed_bytes now m f)) (
        round_trip (indexed_to_buf-Writes now m f) (indexed_from_buf-Reads rtype now now' m f) buf
          p)
