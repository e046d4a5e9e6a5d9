-- ===== src/Transport/Wire/Dispatch/RoundTrip.antt =====
-- A buffer with several messages, taken apart (transport/message.cpp: create_messages).
use algorand.Prelude.{
  ℕ, suc, ◌+◌, ◌^◌, ◌<◌, ◌≡◌, ◌≢◌, true, not, refl, subst, List, [], ◌∷◌, ◌++◌, some, length,
  append_nil, arith, ==_refl, ==_iff, ◌==◌,
}
use algorand.Prelude.Fallible.{assert}
use algorand.Prelude.Int.{ℤ}
use algorand.Transport.Wire.{Buffer, Writer, ◌⨾◌, skip, copy_buf}
use algorand.Transport.Wire.Laws.{
  Writes, Reads, ⨾-Writes, skip-Writes, copy_buf-Writes, >>=-Reads, give-Reads, lift-Reads,
  copy_val-Reads, round_trip,
}
use algorand.Transport.Wire.Laws.Lists.{AllFit}
use algorand.Transport.Wire.Header.{Layout}
use algorand.Transport.Wire.Header.RoundTrip.{LayoutLaws}
use algorand.Transport.Wire.Dispatch.{
  AnyMessage, any_to_buf, returned, create_loop, is_node, create_messages,
}
use algorand.Transport.Wire.Dispatch.Laws.{
  FitsAny, any_bytes, any_copy, any_to_buf-Writes, create_from_buf-Reads,
}
use algorand.System.Node.{Platform, Config}

module _ (P : Platform) (c : Config) (W : Layout P) (FitsInt : ℤ → Type 0)
    (L : LayoutLaws P W FitsInt) (g_synth_table_size : ℕ) where
  open P.D use {Double}
  open P use {Request}

  -- one message after the other, each by its copy_to_buf
  write_all : (ℕ → ℕ → Double) → ℕ → List (AnyMessage Double Request) → Writer
  write_all clocks i [] = skip
  write_all clocks i (m ∷ ms) =
      any_to_buf P c W g_synth_table_size (clocks i) m ⨾ write_all clocks (i + 1) ms

  -- what a buffer to this node holds: the identifiers of the receiver and of the sender, the count, and the messages
  pub packet_to_buf : (ℕ → ℕ → Double) → ℕ → List (AnyMessage Double Request) → Writer
  packet_to_buf clocks return_id ms =
      copy_buf W.u32 c.g_node_id
      ⨾ copy_buf W.u32 return_id
      ⨾ copy_buf W.u32 (length ms)
      ⨾ write_all clocks 0 ms

  all_bytes : (ℕ → ℕ → Double) → ℕ → List (AnyMessage Double Request) → List ℕ
  all_bytes clocks i [] = []
  all_bytes clocks i (m ∷ ms) =
      any_bytes P c W FitsInt L g_synth_table_size (clocks i) m ++ all_bytes clocks (i + 1) ms

  -- the messages, the message i written with `clocks i` and read with `clocks' i`, that come from a node
  pub all_copies :
      (clocks clocks' : ℕ → ℕ → Double)
      → ℕ
      → ℕ
      → List (AnyMessage Double Request)
      → List (AnyMessage Double Request)
  all_copies clocks clocks' i id [] = []
  all_copies clocks clocks' i id (m ∷ ms) =
      returned P c W g_synth_table_size id
        (any_copy P c W FitsInt L g_synth_table_size (clocks i) (clocks' i) m)
      ∷ all_copies clocks clocks' (i + 1) id ms

  write_all-Writes :
      (clocks : ℕ → ℕ → Double) (i : ℕ) (ms : List (AnyMessage Double Request))
      → AllFit (FitsAny P c W FitsInt L g_synth_table_size) ms
      → Writes (write_all clocks i ms) (all_bytes clocks i ms)
  unfolding write_all all_bytes
  write_all-Writes clocks i [] f = skip-Writes
  write_all-Writes clocks i (m ∷ ms) f =
      ⨾-Writes (any_to_buf-Writes P c W FitsInt L g_synth_table_size (clocks i) m f.0)
        (write_all-Writes clocks (i + 1) ms f.1)

  create_loop-Reads :
      (clocks clocks' : ℕ → ℕ → Double) (i id : ℕ) (ms : List (AnyMessage Double Request))
      → AllFit (FitsAny P c W FitsInt L g_synth_table_size) ms
      → Reads
          (create_loop P c W g_synth_table_size (length ms) clocks' i id)
          (all_bytes clocks i ms)
          (all_copies clocks clocks' i id ms)
  unfolding create_loop all_bytes all_copies
  create_loop-Reads clocks clocks' i id [] f = give-Reads []
  create_loop-Reads clocks clocks' i id (m ∷ ms) f =
      subst
        (λ bs.
          Reads (create_loop P c W g_synth_table_size (suc (length ms)) clocks' i id)
            (any_bytes P c W FitsInt L g_synth_table_size (clocks i) m ++ bs)
            (all_copies clocks clocks' i id (m ∷ ms)))
        (append_nil (all_bytes clocks (i + 1) ms))
        (>>=-Reads _
          (create_from_buf-Reads P c W FitsInt L g_synth_table_size (clocks i) (clocks' i) m f.0)
          (>>=-Reads _ (create_loop-Reads clocks clocks' (i + 1) id ms f.1) (give-Reads _)))

  packet_bytes : (ℕ → ℕ → Double) → ℕ → List (AnyMessage Double Request) → List ℕ
  packet_bytes clocks return_id ms =
      W.u32.to_bytes c.g_node_id
      ++ (W.u32.to_bytes return_id ++ (W.u32.to_bytes (length ms) ++ all_bytes clocks 0 ms))

  packet_to_buf-Writes :
      (clocks : ℕ → ℕ → Double) (return_id : ℕ) (ms : List (AnyMessage Double Request))
      → AllFit (FitsAny P c W FitsInt L g_synth_table_size) ms
      → Writes (packet_to_buf clocks return_id ms) (packet_bytes clocks return_id ms)
  unfolding packet_to_buf packet_bytes
  packet_to_buf-Writes clocks return_id ms f = ⨾-Writes (copy_buf-Writes L.u32 c.g_node_id) (
      ⨾-Writes (copy_buf-Writes L.u32 return_id)
        (⨾-Writes (copy_buf-Writes L.u32 (length ms)) (write_all-Writes clocks 0 ms f)))

  create_messages-Reads :
      (clocks clocks' : ℕ → ℕ → Double) (return_id : ℕ) (ms : List (AnyMessage Double Request))
      → c.g_node_id < 2 ^ 32
      → return_id < 2 ^ 32
      → length ms < 2 ^ 32
      → return_id ≢ c.g_node_id
      → is_node P c W g_synth_table_size return_id ≡ true
      → AllFit (FitsAny P c W FitsInt L g_synth_table_size) ms
      → Reads
          (create_messages P c W g_synth_table_size clocks')
          (packet_bytes clocks return_id ms)
          (all_copies clocks clocks' 0 return_id ms)
  unfolding create_messages packet_bytes
  create_messages-Reads clocks clocks' return_id ms here there few other node f =
      let to_me : assert (c.g_node_id == c.g_node_id) ≡ some tt = rw (==_refl c.g_node_id) refl in
      let away : assert (not (return_id == c.g_node_id)) ≡ some tt =
        ground (arith, ==_iff return_id c.g_node_id) in
      let known : assert (is_node P c W g_synth_table_size return_id) ≡ some tt = rw node refl in
      >>=-Reads _ (copy_val-Reads L.u32 c.g_node_id here) (
        >>=-Reads _ (copy_val-Reads L.u32 return_id there) (
          >>=-Reads _ (copy_val-Reads L.u32 (length ms) few) (
            >>=-Reads _ (lift-Reads _ tt to_me) (
              >>=-Reads _ (lift-Reads _ tt away) (
                >>=-Reads _ (lift-Reads _ tt known)
                  (create_loop-Reads clocks clocks' 0 return_id ms f))))))

  -- A buffer that a server, client or replica other than this node has filled, with the identifiers of the two
  -- nodes, the number of the messages and then each message as its copy_to_buf writes it, is taken apart by
  -- create_messages: all asserts hold, the messages come back in order, each of its class, as copy_from_buf gives
  -- them and with the sender as return_node_id, and the pointer is at the end. The documented laws of the
  -- representations hold, each message fits and has the request type of its class, and the two identifiers and the
  -- count are below 2 ^ 32.
  pub packet_to_buf-create_messages :
      (clocks clocks' : ℕ → ℕ → Double) (return_id : ℕ) (ms : List (AnyMessage Double Request))
      → c.g_node_id < 2 ^ 32
      → return_id < 2 ^ 32
      → length ms < 2 ^ 32
      → return_id ≢ c.g_node_id
      → is_node P c W g_synth_table_size return_id ≡ true
      → AllFit (FitsAny P c W FitsInt L g_synth_table_size) ms
      → (buf : Buffer) (p : ℕ)
      → (buf' : Buffer) × (end : ℕ) × (packet_to_buf clocks return_id ms buf p ≡ some (buf', end))
        × (create_messages P c W g_synth_table_size clocks' buf' p
            ≡ some (all_copies clocks clocks' 0 return_id ms, end))
  packet_to_buf-create_messages clocks clocks' return_id ms here there few other node f buf p =
      let (buf', written, read) =
        round_trip (packet_to_buf-Writes clocks return_id ms f)
          (create_messages-Reads clocks clocks' return_id ms here there few other node f) buf p in
      (buf', p + length (packet_bytes clocks return_id ms), written, read)
