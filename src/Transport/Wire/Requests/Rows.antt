-- ===== src/Transport/Wire/Requests/Rows.antt =====
-- The loops of BatchRequests over its requests (transport/message.cpp).
use algorand.Prelude.{
  map, ℕ, zero, suc, ◌+◌, ◌*◌, ◌^◌, ◌≡◌, ◌<◌, refl, List, [], ◌∷◌, ◌++◌, Text, length,
  length-append, append_nil, subst, arith,
}
use algorand.Prelude.Int.{ℤ}
use algorand.Transport.Messages.{YcsbClientQueryMessage}
use algorand.Transport.Wire.Laws.{
  Writes, Reads, ⨾-Writes, skip-Writes, copy_buf-Writes, copy_string-Writes, >>=-Reads, give-Reads,
  copy_val-Reads, buf_to_string-Reads,
}
use algorand.Transport.Wire.Laws.Lists.{AllFit}
use algorand.Transport.Wire.Header.{Layout}
use algorand.Transport.Wire.Header.RoundTrip.{LayoutLaws}
use algorand.Transport.Wire.Nested.{queries_size}
use algorand.Transport.Wire.Nested.Laws.{FitsNested, nested_query-Reads, queries_copy}
use algorand.Transport.Wire.Query.RoundTrip.{ycsb_bytes, length-ycsb_bytes, ycsb_to_buf-Writes}
use algorand.Transport.Wire.Requests.{copy_rows, read_rows, hashes_size}
use algorand.System.Node.{Platform, Config}

module _ (P : Platform) (c : Config) (W : Layout P) (FitsInt : ℤ → Type 0)
    (L : LayoutLaws P W FitsInt) (g_synth_table_size : ℕ) where
  open P.D use {Double}
  open P use {Request}
  open W use {u64}

  pub rows_bytes :
      (ℕ → Double) → ℕ → List ℕ → List Text → List (YcsbClientQueryMessage Double Request) → List ℕ
  rows_bytes clock i (x ∷ is) (t ∷ ts) (q ∷ qs) =
      u64.to_bytes x
      ++ (u64.to_bytes (length t)
          ++ (t
              ++ (ycsb_bytes P c W FitsInt L g_synth_table_size (clock i) q
                  ++ rows_bytes clock (i + 1) is ts qs)))
  rows_bytes clock i [] ts qs = []
  rows_bytes clock i (x ∷ is) [] qs = []
  rows_bytes clock i (x ∷ is) (t ∷ ts) [] = []

  pub copy_rows-Writes :
      (clock : ℕ → Double) (n i : ℕ) (is : List ℕ) (ts : List Text)
      (qs : List (YcsbClientQueryMessage Double Request))
      → length is ≡ n
      → length ts ≡ n
      → length qs ≡ n
      → AllFit (FitsNested P FitsInt g_synth_table_size) qs
      → Writes
          (copy_rows P c W g_synth_table_size n clock i is (map length ts) ts qs)
          (rows_bytes clock i is ts qs)
  unfolding copy_rows rows_bytes
  copy_rows-Writes clock zero i [] [] [] a b d f = record {
    writes = λ buf p. skip-Writes.writes buf p;
  }
  copy_rows-Writes clock zero i (x ∷ is) ts qs a b d f = absurd (omega arith)
  copy_rows-Writes clock zero i [] (t ∷ ts) qs a b d f = absurd (omega arith)
  copy_rows-Writes clock zero i [] [] (q ∷ qs) a b d f = absurd (omega arith)
  copy_rows-Writes clock (suc n) i [] ts qs a b d f = absurd (omega arith)
  copy_rows-Writes clock (suc n) i (x ∷ is) [] qs a b d f = absurd (omega arith)
  copy_rows-Writes clock (suc n) i (x ∷ is) (t ∷ ts) [] a b d f = absurd (omega arith)
  copy_rows-Writes clock (suc n) i (x ∷ is) (t ∷ ts) (q ∷ qs) a b d f =
      let rest =
        copy_rows-Writes clock n (i + 1) is ts qs (omega arith) (omega arith) (omega arith) f.1 in
      let all = ⨾-Writes (copy_buf-Writes L.u64 x) (
        ⨾-Writes (copy_buf-Writes L.u64 (length t)) (
          ⨾-Writes (copy_string-Writes (length t) t refl) (
            ⨾-Writes (ycsb_to_buf-Writes P c W FitsInt L g_synth_table_size (clock i) q f.0.query)
              rest))) in
      record { writes = λ buf p. all.writes buf p }

  pub read_rows-Reads :
      (clock clock' : ℕ → Double) (n i : ℕ) (is : List ℕ) (ts : List Text)
      (qs : List (YcsbClientQueryMessage Double Request))
      → length is ≡ n
      → length ts ≡ n
      → length qs ≡ n
      → AllFit (λ k. k < 2 ^ 64) is
      → AllFit (λ t. length t < 2 ^ 64) ts
      → AllFit (FitsNested P FitsInt g_synth_table_size) qs
      → Reads
          (read_rows P c W g_synth_table_size n clock' i)
          (rows_bytes clock i is ts qs)
          (is, map length ts, ts, queries_copy P c W FitsInt L g_synth_table_size clock clock' i qs)
  unfolding read_rows rows_bytes queries_copy
  read_rows-Reads clock clock' zero i [] [] [] a b d f g h = give-Reads _
  read_rows-Reads clock clock' zero i (x ∷ is) ts qs a b d f g h = absurd (omega arith)
  read_rows-Reads clock clock' zero i [] (t ∷ ts) qs a b d f g h = absurd (omega arith)
  read_rows-Reads clock clock' zero i [] [] (q ∷ qs) a b d f g h = absurd (omega arith)
  read_rows-Reads clock clock' (suc n) i [] ts qs a b d f g h = absurd (omega arith)
  read_rows-Reads clock clock' (suc n) i (x ∷ is) [] qs a b d f g h = absurd (omega arith)
  read_rows-Reads clock clock' (suc n) i (x ∷ is) (t ∷ ts) [] a b d f g h = absurd (omega arith)
  read_rows-Reads clock clock' (suc n) i (x ∷ is) (t ∷ ts) (q ∷ qs) a b d f g h =
      let rest =
        read_rows-Reads clock clock' n (i + 1) is ts qs (omega arith) (omega arith) (omega arith)
          f.1 g.1 h.1 in
      subst
        (λ bs.
          Reads (read_rows P c W g_synth_table_size (suc n) clock' i)
            (u64.to_bytes x
              ++ (u64.to_bytes (length t)
                  ++ (t ++ (ycsb_bytes P c W FitsInt L g_synth_table_size (clock i) q ++ bs))))
            (
              x ∷ is,
              length t ∷ map length ts,
              t ∷ ts,
              queries_copy P c W FitsInt L g_synth_table_size clock clock' i (q ∷ qs),
            ))
        (append_nil (rows_bytes clock (i + 1) is ts qs))
        (>>=-Reads _ (copy_val-Reads L.u64 x f.0) (
          >>=-Reads _ (copy_val-Reads L.u64 (length t) g.0) (
            >>=-Reads _ (buf_to_string-Reads (length t) t refl) (
              >>=-Reads _
                (nested_query-Reads P c W FitsInt L g_synth_table_size (clock i) (clock' i) q h.0)
                (>>=-Reads _ rest (give-Reads _))))))

  pub length-rows_bytes :
      (clock : ℕ → Double) (n i : ℕ) (is : List ℕ) (ts : List Text)
      (qs : List (YcsbClientQueryMessage Double Request))
      → length is ≡ n
      → length ts ≡ n
      → length qs ≡ n
      → AllFit (FitsNested P FitsInt g_synth_table_size) qs
      → length (rows_bytes clock i is ts qs)
        ≡ u64.size * n
          + u64.size * n
          + hashes_size P c W g_synth_table_size n ts
          + queries_size P c W g_synth_table_size n qs
  unfolding rows_bytes hashes_size queries_size
  length-rows_bytes clock zero i [] [] [] a b d f = omega arith
  length-rows_bytes clock zero i (x ∷ is) ts qs a b d f = absurd (omega arith)
  length-rows_bytes clock zero i [] (t ∷ ts) qs a b d f = absurd (omega arith)
  length-rows_bytes clock zero i [] [] (q ∷ qs) a b d f = absurd (omega arith)
  length-rows_bytes clock (suc n) i [] ts qs a b d f = absurd (omega arith)
  length-rows_bytes clock (suc n) i (x ∷ is) [] qs a b d f = absurd (omega arith)
  length-rows_bytes clock (suc n) i (x ∷ is) (t ∷ ts) [] a b d f = absurd (omega arith)
  length-rows_bytes clock (suc n) i (x ∷ is) (t ∷ ts) (q ∷ qs) a b d f =
      let rest =
        length-rows_bytes clock n (i + 1) is ts qs (omega arith) (omega arith) (omega arith) f.1 in
      let this = length-ycsb_bytes P c W FitsInt L g_synth_table_size (clock i) q f.0.query in
      simp (length-append, L.u64.length-to_bytes, rest, this) (grind arith)
