-- ===== src/Transport/Wire/Nested.antt =====
-- transport/message.cpp: create_message(char *) where a message that carries client queries calls it, and the loops
-- over these queries. Each header reads the clock of its own: `clock i` is the value at the query `i`.
pub mod Laws
use algorand.Prelude.{ℕ, zero, suc, ◌+◌, List, [], ◌∷◌, none, some}
use algorand.Transport.Messages.{RemReqType, cl_qry, YcsbClientQueryMessage}
use algorand.Transport.Wire.{Writer, ◌⨾◌, Reader, ◌>>=◌, give, copy_val}
use algorand.Transport.Wire.Header.{Layout}
use algorand.Transport.Wire.Query.{ycsb_size, ycsb_to_buf, ycsb_from_buf}
use algorand.System.Node.{Platform, Config}

module _ (P : Platform) (c : Config) (W : Layout P) where
  open P.D use {Double}
  open P use {Request}

  -- create_message(char *): the request type is read first, and the message from the same place
  pub by_type : {A : Type 0} → (RemReqType → Reader A) → Reader A
  by_type k buf p = elim (copy_val W.rtype buf p) [ none ↦ none | some (r, p1) ↦ k r buf p ]

  module _ (g_synth_table_size : ℕ) where
    -- `*((YCSBClientQueryMessage *)msg)`, which is undefined for a message of another class
    cast_query : Double → RemReqType → Reader (YcsbClientQueryMessage Double Request)
    cast_query now r buf p = elim r [
      | cl_qry ↦ ycsb_from_buf P c W g_synth_table_size now buf p
      | _ ↦ none
    ]

    pub nested_query : Double → Reader (YcsbClientQueryMessage Double Request)
    nested_query now = by_type (cast_query now)

    -- `for (i = 0; i < n; i++) size += queries[i].get_size();`, where an index past the end adds nothing: the
    -- loops that copy fail there
    unfoldable pub queries_size : ℕ → List (YcsbClientQueryMessage Double Request) → ℕ
    queries_size zero qs = 0
    queries_size (suc n) [] = 0
    queries_size (suc n) (q ∷ qs) = ycsb_size P c W g_synth_table_size q + queries_size n qs

    pub copy_queries : ℕ → (ℕ → Double) → ℕ → List (YcsbClientQueryMessage Double Request) → Writer
    copy_queries zero clock i qs buf p = some (buf, p)
    copy_queries (suc n) clock i [] buf p = none
    copy_queries (suc n) clock i (q ∷ qs) buf p =
        (ycsb_to_buf P c W g_synth_table_size (clock i) q ⨾ copy_queries n clock (i + 1) qs) buf p

    pub read_queries : ℕ → (ℕ → Double) → ℕ → Reader (List (YcsbClientQueryMessage Double Request))
    read_queries zero clock i = give []
    read_queries (suc n) clock i = do
      q ← nested_query (clock i)
      qs ← read_queries n clock (i + 1)
      give (q ∷ qs)
