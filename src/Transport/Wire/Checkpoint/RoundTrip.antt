-- ===== src/Transport/Wire/Checkpoint/RoundTrip.antt =====
-- CheckpointMessage through a buffer and back (transport/message.cpp).
use algorand.Prelude.{ℕ, ◌+◌, ◌^◌, ◌≡◌, ◌<◌, List, [], ◌++◌, length, length-append, arith}
use algorand.Prelude.Int.{ℤ}
use algorand.Transport.Messages.{pbft_chkpt_msg, Message, CheckpointMessage}
use algorand.Transport.Wire.Laws.{
  Writes, Reads, ⨾-Writes, skip-Writes, copy_buf-Writes, >>=-Reads, give-Reads, copy_val-Reads,
}
use algorand.Transport.Wire.Header.{Layout, mget_size}
use algorand.Transport.Wire.Header.RoundTrip.{
  LayoutLaws, FitsMessage, header_bytes, header_bytes-rtype,
}
use algorand.Transport.Wire.Header.Framed.{
  fresh_copy, frame_to_buf-Writes, frame_from_buf-Reads, length-framed, framed-rtype,
}
use algorand.System.Node.{Platform, Config}
use algorand.Transport.Wire.Checkpoint.{
  checkpoint_size, checkpoint_fields, checkpoint_fields_from, checkpoint_to_buf,
  checkpoint_from_buf,
}

pub record FitsCheckpoint {R : Type 0} (FitsInt : ℤ → Type 0) (m : CheckpointMessage R)
    : Type 0 where
  pub base : FitsMessage FitsInt m.base
  pub index : m.index < 2 ^ 64
  pub return_node : m.return_node < 2 ^ 64
  pub beg_index : m.beg_index < 2 ^ 64

module _ (P : Platform) (c : Config) (W : Layout P) (FitsInt : ℤ → Type 0)
    (L : LayoutLaws P W FitsInt) where
  open P.D use {Double}
  open W use {u64}

  field_bytes : CheckpointMessage Double → List ℕ
  field_bytes m =
      (u64.to_bytes m.index ++ (u64.to_bytes m.return_node ++ (u64.to_bytes m.beg_index ++ [])))

  checkpoint_fields-Writes :
      (m : CheckpointMessage Double)
      → FitsCheckpoint FitsInt m
      → Writes (checkpoint_fields P c W m) (field_bytes m)
  unfolding checkpoint_fields field_bytes
  checkpoint_fields-Writes m f = ⨾-Writes (copy_buf-Writes L.u64 m.index) (
      ⨾-Writes (copy_buf-Writes L.u64 m.return_node)
        (⨾-Writes (copy_buf-Writes L.u64 m.beg_index) (skip-Writes)))

  checkpoint_fields_from-Reads :
      (base : Message Double) (m : CheckpointMessage Double)
      → FitsCheckpoint FitsInt m
      → Reads (checkpoint_fields_from P c W base) (field_bytes m) (record m { base = base })
  unfolding checkpoint_fields_from field_bytes
  checkpoint_fields_from-Reads base m f = >>=-Reads _ (copy_val-Reads L.u64 m.index f.index) (
      >>=-Reads _ (copy_val-Reads L.u64 m.return_node f.return_node)
        (>>=-Reads _ (copy_val-Reads L.u64 m.beg_index f.beg_index) (give-Reads _)))

  length-field_bytes :
      (m : CheckpointMessage Double)
      → mget_size P W m.base + length (field_bytes m) ≡ checkpoint_size P c W m
  unfolding field_bytes checkpoint_size
  length-field_bytes m = simp (length-append, L.u64.length-to_bytes) (omega arith)

  -- the message of the copy that was written at `now` and is read at `now'`
  abbrev pub checkpoint_copy : Double → Double → CheckpointMessage Double → CheckpointMessage Double
  checkpoint_copy now now' m = record m {
    base = fresh_copy P c W FitsInt L now now' pbft_chkpt_msg m.base;
  }

  pub checkpoint_bytes : Double → CheckpointMessage Double → List ℕ
  checkpoint_bytes now m = header_bytes P W FitsInt L now m.base ++ field_bytes m

  pub checkpoint_bytes-rtype :
      (now : Double) (m : CheckpointMessage Double)
      → (rest : List ℕ) × (checkpoint_bytes now m ≡ W.rtype.to_bytes m.rtype ++ rest)
  unfolding checkpoint_bytes
  checkpoint_bytes-rtype now m =
      framed-rtype P c W FitsInt L m.rtype (field_bytes m)
        (header_bytes-rtype P W FitsInt L now m.base)

  pub length-checkpoint_bytes :
      (now : Double) (m : CheckpointMessage Double)
      → FitsCheckpoint FitsInt m
      → length (checkpoint_bytes now m) ≡ checkpoint_size P c W m
  unfolding checkpoint_bytes
  length-checkpoint_bytes now m f =
      length-framed P c W FitsInt L (field_bytes m) now m.base f.base (length-field_bytes m)

  pub checkpoint_to_buf-Writes :
      (now : Double) (m : CheckpointMessage Double)
      → FitsCheckpoint FitsInt m
      → Writes (checkpoint_to_buf P c W now m) (checkpoint_bytes now m)
  unfolding checkpoint_to_buf checkpoint_bytes
  checkpoint_to_buf-Writes now m f =
      frame_to_buf-Writes P c W FitsInt L now m.base f.base (checkpoint_fields-Writes m f)
        (length-field_bytes m)

  pub checkpoint_from_buf-Reads :
      (now now' : Double) (m : CheckpointMessage Double)
      → FitsCheckpoint FitsInt m
      → Reads (checkpoint_from_buf P c W now') (checkpoint_bytes now m) (checkpoint_copy now now' m)
  unfolding checkpoint_from_buf checkpoint_bytes field_bytes
  checkpoint_from_buf-Reads now now' m f =
      frame_from_buf-Reads P c W FitsInt L (checkpoint_fields_from P c W) (checkpoint_size P c W)
        now now' pbft_chkpt_msg m.base f.base (checkpoint_fields_from-Reads _ m f)
        (length-field_bytes (checkpoint_copy now now' m))
