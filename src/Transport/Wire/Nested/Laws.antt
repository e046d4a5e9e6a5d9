-- ===== src/Transport/Wire/Nested/Laws.antt =====
-- Client queries inside another message (transport/message.cpp).
use algorand.Prelude.{
  ℕ, zero, suc, ◌+◌, ◌≡◌, refl, List, [], ◌∷◌, ◌++◌, length, length-append, append_nil, arith,
  subst,
}
use algorand.Prelude.Int.{ℤ}
use algorand.Transport.Messages.{RemReqType, cl_qry, YcsbClientQueryMessage}
use algorand.Transport.Wire.{Reader, get_bytes}
use algorand.Transport.Wire.Laws.{
  Writes, Reads, ⨾-Writes, skip-Writes, >>=-Reads, give-Reads, copy_val-Reads, get_bytes-append,
}
use algorand.Transport.Wire.Laws.Lists.{AllFit}
use algorand.Transport.Wire.Header.{Layout}
use algorand.Transport.Wire.Header.RoundTrip.{LayoutLaws}
use algorand.Transport.Wire.Query.RoundTrip.{
  FitsYcsb, ycsb_bytes, ycsb_bytes-rtype, ycsb_copy, length-ycsb_bytes, ycsb_to_buf-Writes,
  ycsb_from_buf-Reads, ycsb_size-copy,
}
use algorand.Transport.Wire.Nested.{
  by_type, cast_query, nested_query, queries_size, copy_queries, read_queries,
}
use algorand.System.Node.{Platform, Config}

pub record FitsNested (P : Platform) (FitsInt : ℤ → Type 0) (g_synth_table_size : ℕ)
    (q : YcsbClientQueryMessage P.D.Double P.Request) : Type 0 where
  pub query : FitsYcsb P FitsInt g_synth_table_size q
  pub rtype : q.rtype ≡ cl_qry

pub by_type-Reads :
    (P : Platform) (c : Config) (W : Layout P) (FitsInt : ℤ → Type 0) (L : LayoutLaws P W FitsInt)
    {A : Type 0} (k : RemReqType → Reader A) (r : RemReqType) {bs : List ℕ} {a : A}
    → (rest : List ℕ) × (bs ≡ W.rtype.to_bytes r ++ rest)
    → Reads (k r) bs a
    → Reads (by_type P c W k) bs a
unfolding by_type
by_type-Reads P c W FitsInt L k r {bs} (rest, starts) h = record {
  reads = λ buf p e.
      let whole = subst (λ x. get_bytes (length x) buf p ≡ x) starts e in
      let (first, after) = get_bytes-append (W.rtype.to_bytes r) rest buf p whole in
      rw ((copy_val-Reads L.rtype r tt).reads buf p first, by_type, h.reads buf p e);
}

module _ (P : Platform) (c : Config) (W : Layout P) (FitsInt : ℤ → Type 0)
    (L : LayoutLaws P W FitsInt) (g_synth_table_size : ℕ) where
  open P.D use {Double}
  open P use {Request}

  cast_query-Reads :
      (now now' : Double) (r : RemReqType) (q : YcsbClientQueryMessage Double Request)
      → r ≡ cl_qry
      → FitsYcsb P FitsInt g_synth_table_size q
      → Reads
          (cast_query P c W g_synth_table_size now' r)
          (ycsb_bytes P c W FitsInt L g_synth_table_size now q)
          (ycsb_copy P c W FitsInt L g_synth_table_size now now' q)
  unfolding cast_query
  cast_query-Reads now now' r q e f = rw e (record {
    reads = (ycsb_from_buf-Reads P c W FitsInt L g_synth_table_size now now' q f).reads;
  })

  pub nested_query-Reads :
      (now now' : Double) (q : YcsbClientQueryMessage Double Request)
      → FitsNested P FitsInt g_synth_table_size q
      → Reads
          (nested_query P c W g_synth_table_size now')
          (ycsb_bytes P c W FitsInt L g_synth_table_size now q)
          (ycsb_copy P c W FitsInt L g_synth_table_size now now' q)
  unfolding nested_query
  nested_query-Reads now now' q f =
      by_type-Reads P c W FitsInt L (cast_query P c W g_synth_table_size now') q.rtype
        (ycsb_bytes-rtype P c W FitsInt L g_synth_table_size now q)
        (cast_query-Reads now now' q.rtype q f.rtype f.query)

  pub queries_bytes : (ℕ → Double) → ℕ → List (YcsbClientQueryMessage Double Request) → List ℕ
  queries_bytes clock i [] = []
  queries_bytes clock i (q ∷ qs) =
      ycsb_bytes P c W FitsInt L g_synth_table_size (clock i) q ++ queries_bytes clock (i + 1) qs

  -- the queries, the query `i` written at `clock i` and read at `clock' i`
  unfoldable pub queries_copy :
      (clock clock' : ℕ → Double)
      → ℕ
      → List (YcsbClientQueryMessage Double Request)
      → List (YcsbClientQueryMessage Double Request)
  queries_copy clock clock' i [] = []
  queries_copy clock clock' i (q ∷ qs) =
      ycsb_copy P c W FitsInt L g_synth_table_size (clock i) (clock' i) q
      ∷ queries_copy clock clock' (i + 1) qs

  pub queries_size-copy :
      (clock clock' : ℕ → Double) (n i : ℕ) (qs : List (YcsbClientQueryMessage Double Request))
      → queries_size P c W g_synth_table_size n (queries_copy clock clock' i qs)
        ≡ queries_size P c W g_synth_table_size n qs
  unfolding queries_size queries_copy
  queries_size-copy clock clock' zero i qs = refl
  queries_size-copy clock clock' (suc n) i [] = refl
  queries_size-copy clock clock' (suc n) i (q ∷ qs) = rw (
    ycsb_size-copy P c W FitsInt L g_synth_table_size (clock i) (clock' i) q,
    queries_size-copy clock clock' n (i + 1) qs,
  )

  pub length-queries_bytes :
      (clock : ℕ → Double) (n i : ℕ) (qs : List (YcsbClientQueryMessage Double Request))
      → length qs ≡ n
      → AllFit (FitsNested P FitsInt g_synth_table_size) qs
      → length (queries_bytes clock i qs) ≡ queries_size P c W g_synth_table_size n qs
  unfolding queries_size queries_bytes
  length-queries_bytes clock zero i [] e f = refl
  length-queries_bytes clock zero i (q ∷ qs) e f = absurd (omega arith)
  length-queries_bytes clock (suc n) i [] e f = refl
  length-queries_bytes clock (suc n) i (q ∷ qs) e f = rw (
    length-append (ycsb_bytes P c W FitsInt L g_synth_table_size (clock i) q)
        (queries_bytes clock (i + 1) qs),
    length-ycsb_bytes P c W FitsInt L g_synth_table_size (clock i) q f.0.query,
    length-queries_bytes clock n (i + 1) qs (omega arith) f.1,
  )

  pub copy_queries-Writes :
      (clock : ℕ → Double) (n i : ℕ) (qs : List (YcsbClientQueryMessage Double Request))
      → length qs ≡ n
      → AllFit (FitsNested P FitsInt g_synth_table_size) qs
      → Writes (copy_queries P c W g_synth_table_size n clock i qs) (queries_bytes clock i qs)
  unfolding copy_queries queries_bytes
  copy_queries-Writes clock zero i [] e f = record { writes = λ buf p. skip-Writes.writes buf p }
  copy_queries-Writes clock zero i (q ∷ qs) e f = absurd (omega arith)
  copy_queries-Writes clock (suc n) i [] e f = absurd (omega arith)
  copy_queries-Writes clock (suc n) i (q ∷ qs) e f =
      let both =
        ⨾-Writes (ycsb_to_buf-Writes P c W FitsInt L g_synth_table_size (clock i) q f.0.query)
          (copy_queries-Writes clock n (i + 1) qs (omega arith) f.1) in
      record { writes = λ buf p. both.writes buf p }

  pub read_queries-Reads :
      (clock clock' : ℕ → Double) (n i : ℕ) (qs : List (YcsbClientQueryMessage Double Request))
      → length qs ≡ n
      → AllFit (FitsNested P FitsInt g_synth_table_size) qs
      → Reads
          (read_queries P c W g_synth_table_size n clock' i)
          (queries_bytes clock i qs)
          (queries_copy clock clock' i qs)
  unfolding read_queries queries_bytes queries_copy
  read_queries-Reads clock clock' zero i [] e f = give-Reads []
  read_queries-Reads clock clock' zero i (q ∷ qs) e f = absurd (omega arith)
  read_queries-Reads clock clock' (suc n) i [] e f = absurd (omega arith)
  read_queries-Reads clock clock' (suc n) i (q ∷ qs) e f =
      let this = nested_query-Reads (clock i) (clock' i) q f.0 in
      let rest = read_queries-Reads clock clock' n (i + 1) qs (omega arith) f.1 in
      subst
        (λ bs.
          Reads (read_queries P c W g_synth_table_size (suc n) clock' i)
            (ycsb_bytes P c W FitsInt L g_synth_table_size (clock i) q ++ bs)
            (queries_copy clock clock' i (q ∷ qs)))
        (append_nil (queries_bytes clock (i + 1) qs))
        (>>=-Reads _ this (>>=-Reads _ rest (give-Reads _)))
