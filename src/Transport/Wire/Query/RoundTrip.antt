-- ===== src/Transport/Wire/Query/RoundTrip.antt =====
-- YCSBClientQueryMessage through a buffer and back (transport/message.cpp).
use algorand.Prelude.{
  ℕ, suc, ◌+◌, ◌^◌, ◌≡◌, ◌<◌, sym, ◌∙◌, List, [], ◌∷◌, ◌++◌, some, true, length, length-append,
  arith, ltb, append_nil, subst,
}
use algorand.Prelude.Int.{ℤ}
use algorand.Prelude.Fallible.{assert}
use algorand.Transport.Messages.{cl_qry, YcsbClientQueryMessage}
use algorand.Transport.Wire.Laws.{
  Writes, Reads, ⨾-Writes, skip-Writes, check-Writes, copy_buf-Writes, >>=-Reads, give-Reads,
  lift-Reads, copy_val-Reads,
}
use algorand.Transport.Wire.Laws.Frames.{frame_write-Writes, frame_read-Reads}
use algorand.Transport.Wire.Laws.Lists.{list_bytes, AllFit, length-list_bytes}
use algorand.Transport.Wire.Header.{Layout}
use algorand.Transport.Wire.Header.RoundTrip.{LayoutLaws}
use algorand.Transport.Wire.Header.Framed.{fresh_copy, framed-rtype}
use algorand.Transport.Wire.Query.{
  client_part, client_size, ycsb_size, copy_requests, read_requests, ycsb_fields, ycsb_fields_from,
  ycsb_to_buf, ycsb_from_buf,
}
use algorand.Transport.Wire.Query.Client.{
  FitsClient, client_copy, client_bytes, length-client_bytes, client_to_buf-Writes,
  client_from_buf-Reads, client_size-copy, client_bytes-rtype,
}
use algorand.System.Node.{Platform, Config}

pub record FitsYcsb (P : Platform) (FitsInt : ℤ → Type 0) (g_synth_table_size : ℕ)
    (m : YcsbClientQueryMessage P.D.Double P.Request) : Type 0 where
  pub client : FitsClient FitsInt (client_part m)
  pub few : length m.requests < 2 ^ 64
  pub keys : AllFit (λ r. P.key r < g_synth_table_size) m.requests
  pub return_node : m.return_node < 2 ^ 64

module _ (P : Platform) (c : Config) (W : Layout P) (FitsInt : ℤ → Type 0)
    (L : LayoutLaws P W FitsInt) (g_synth_table_size : ℕ) where
  open P.D use {Double}
  open P use {Request}
  open W use {u64, request}

  copy_requests-Writes :
      (rs : List Request)
      → AllFit (λ r. P.key r < g_synth_table_size) rs
      → Writes (copy_requests P c W g_synth_table_size rs) (list_bytes request rs)
  unfolding copy_requests list_bytes
  copy_requests-Writes [] f = record { writes = λ buf p. skip-Writes.writes buf p }
  copy_requests-Writes (r ∷ rs) f =
      let small : ltb (P.key r) g_synth_table_size ≡ true = ground arith in
      let all =
        ⨾-Writes (check-Writes (ltb (P.key r) g_synth_table_size) small)
          (⨾-Writes (copy_buf-Writes L.request r) (copy_requests-Writes rs f.1)) in
      record { writes = λ buf p. all.writes buf p }

  read_requests-Reads :
      (rs : List Request)
      → AllFit (λ r. P.key r < g_synth_table_size) rs
      → Reads (read_requests P c W g_synth_table_size (length rs)) (list_bytes request rs) rs
  unfolding read_requests list_bytes
  read_requests-Reads [] f = give-Reads []
  read_requests-Reads (r ∷ rs) f =
      let small : assert (ltb (P.key r) g_synth_table_size) ≡ some tt = ground arith in
      subst
        (λ bs.
          Reads (read_requests P c W g_synth_table_size (suc (length rs)))
            (request.to_bytes r ++ bs) (r ∷ rs))
        (append_nil (list_bytes request rs))
        (>>=-Reads _ (copy_val-Reads L.request r tt) (
          >>=-Reads _ (lift-Reads _ tt small)
            (>>=-Reads _ (read_requests-Reads rs f.1) (give-Reads (r ∷ rs)))))

  ycsb_field_bytes : YcsbClientQueryMessage Double Request → List ℕ
  ycsb_field_bytes m =
      u64.to_bytes (length m.requests)
      ++ (list_bytes request m.requests ++ (u64.to_bytes m.return_node ++ []))

  ycsb_fields-Writes :
      (m : YcsbClientQueryMessage Double Request)
      → FitsYcsb P FitsInt g_synth_table_size m
      → Writes (ycsb_fields P c W g_synth_table_size m) (ycsb_field_bytes m)
  unfolding ycsb_fields ycsb_field_bytes
  ycsb_fields-Writes m f = ⨾-Writes (copy_buf-Writes L.u64 (length m.requests)) (
      ⨾-Writes (copy_requests-Writes m.requests f.keys)
        (⨾-Writes (copy_buf-Writes L.u64 m.return_node) skip-Writes))

  -- the message of the copy that was written at `now` and is read at `now'`
  abbrev pub ycsb_copy :
      Double
      → Double
      → YcsbClientQueryMessage Double Request
      → YcsbClientQueryMessage Double Request
  ycsb_copy now now' m = record m { base = fresh_copy P c W FitsInt L now now' cl_qry m.base }

  ycsb_fields_from-Reads :
      (now now' : Double) (m : YcsbClientQueryMessage Double Request)
      → FitsYcsb P FitsInt g_synth_table_size m
      → Reads
          (ycsb_fields_from P c W g_synth_table_size
            (client_copy P c W FitsInt L now now' (client_part m)))
          (ycsb_field_bytes m)
          (ycsb_copy now now' m)
  unfolding ycsb_fields_from ycsb_field_bytes
  ycsb_fields_from-Reads now now' m f =
      >>=-Reads _ (copy_val-Reads L.u64 (length m.requests) f.few) (
        >>=-Reads _ (read_requests-Reads m.requests f.keys)
          (>>=-Reads _ (copy_val-Reads L.u64 m.return_node f.return_node) (give-Reads _)))

  length-ycsb_field_bytes :
      (m : YcsbClientQueryMessage Double Request)
      → ycsb_size P c W g_synth_table_size m
        ≡ client_size P c W (client_part m) + length (ycsb_field_bytes m)
  unfolding ycsb_field_bytes ycsb_size
  length-ycsb_field_bytes m =
      simp (length-append, L.u64.length-to_bytes, length-list_bytes L.request m.requests)
        (omega arith)

  pub ycsb_bytes : Double → YcsbClientQueryMessage Double Request → List ℕ
  ycsb_bytes now m = client_bytes P c W FitsInt L now (client_part m) ++ ycsb_field_bytes m

  pub length-ycsb_bytes :
      (now : Double) (m : YcsbClientQueryMessage Double Request)
      → FitsYcsb P FitsInt g_synth_table_size m
      → length (ycsb_bytes now m) ≡ ycsb_size P c W g_synth_table_size m
  unfolding ycsb_bytes
  length-ycsb_bytes now m f = rw (
    length-append (client_bytes P c W FitsInt L now (client_part m)) (ycsb_field_bytes m),
    length-client_bytes P c W FitsInt L now (client_part m) f.client,
    length-ycsb_field_bytes m,
  )

  pub ycsb_bytes-rtype :
      (now : Double) (m : YcsbClientQueryMessage Double Request)
      → (rest : List ℕ) × (ycsb_bytes now m ≡ W.rtype.to_bytes m.rtype ++ rest)
  unfolding ycsb_bytes
  ycsb_bytes-rtype now m =
      framed-rtype P c W FitsInt L m.rtype (ycsb_field_bytes m)
        (client_bytes-rtype P c W FitsInt L now (client_part m))

  pub ycsb_to_buf-Writes :
      (now : Double) (m : YcsbClientQueryMessage Double Request)
      → FitsYcsb P FitsInt g_synth_table_size m
      → Writes (ycsb_to_buf P c W g_synth_table_size now m) (ycsb_bytes now m)
  unfolding ycsb_to_buf ycsb_bytes
  ycsb_to_buf-Writes now m f =
      frame_write-Writes (client_to_buf-Writes P c W FitsInt L now (client_part m) f.client)
        (length-client_bytes P c W FitsInt L now (client_part m) f.client) (ycsb_fields-Writes m f)
        (length-ycsb_field_bytes m)

  pub ycsb_from_buf-Reads :
      (now now' : Double) (m : YcsbClientQueryMessage Double Request)
      → FitsYcsb P FitsInt g_synth_table_size m
      → Reads
          (ycsb_from_buf P c W g_synth_table_size now')
          (ycsb_bytes now m)
          (ycsb_copy now now' m)
  unfolding ycsb_from_buf ycsb_bytes ycsb_field_bytes
  ycsb_from_buf-Reads now now' m f =
      frame_read-Reads (client_size P c W) (ycsb_fields_from P c W g_synth_table_size)
        (ycsb_size P c W g_synth_table_size) _
        (client_from_buf-Reads P c W FitsInt L now now' (client_part m) f.client)
        (length-client_bytes P c W FitsInt L now (client_part m) f.client
          ∙ sym (client_size-copy P c W FitsInt L now now' (client_part m)))
        (ycsb_fields_from-Reads now now' m f) (length-ycsb_field_bytes (ycsb_copy now now' m))

  pub ycsb_size-copy :
      (now now' : Double) (m : YcsbClientQueryMessage Double Request)
      → ycsb_size P c W g_synth_table_size (ycsb_copy now now' m)
        ≡ ycsb_size P c W g_synth_table_size m
  unfolding ycsb_size
  ycsb_size-copy now now' m = rw (client_size-copy P c W FitsInt L now now' (client_part m))
