-- ===== src/System/ViewChange/Made/Accepted.antt =====
-- That other nodes accept the view change message of a node with a sound log (transport/message.cpp:
-- PBFTViewChangeMsg::init and validate).
use algorand.Prelude.{
  All-append, All, ℕ, ◌+◌, ◌-◌, ◌*◌, ◌%◌, ◌≤◌, ◌<◌, ◌≡◌, ◌≢◌, List, [], ◌∷◌, ◌++◌, some, true,
  false, leb, ◌⊎◌, inl, inr, refl, append_nil, arith, subst, sym, ◌∙◌,
}
use algorand.Prelude.Fallible.{◌>>=◌}
use algorand.Transport.Messages.{BatchRequests, IndexedMessage, PbftViewChangeMsg}
use algorand.System.Node.{Platform, Config, index_size, g_min_invalid_nodes}
use algorand.System.Batch.{check_hashes}
use algorand.System.Batch.Digest.{check_hashes_config}
use algorand.System.ViewChange.{
  ViewNode, prepared_entries, init_view_change, count_matching, validate_batches,
  validate_view_change,
}
use algorand.System.ViewChange.Made.{start_of, init_view_change_lem}
use algorand.System.ViewChange.Made.Entry.{other, IsSound}
use algorand.System.ViewChange.Made.Entries.{IsChosen, prepared_entries-Foreign, entries-IsChosen}

mod_below : (a n : ℕ) → 0 < n → a % n < n
mod_below a n h = grind arith

module _ (P : Platform) (c : Config) (id : ℕ) where
  open P.D use {Double}
  open P use {Request}

  -- what `validate` asks of a batch, with the messages
  abbrev IsAccepted : List (IndexedMessage Double) → BatchRequests Double Request → Type 0
  IsAccepted ms breq =
      (check_hashes P (other P c id) breq c.g_batch_size 0 ≡ some tt)
      × (k : ℕ) × (count_matching P (other P c id) breq ms (λ _. false) 0 ≡ some k)
      × (2 * g_min_invalid_nodes c ≤ k)

  validate_batches-All :
      (ms : List (IndexedMessage Double)) (breqs : List (BatchRequests Double Request))
      → All (IsAccepted ms) breqs
      → validate_batches P (other P c id) breqs ms ≡ some tt
  unfolding validate_batches
  validate_batches-All ms [] a = refl
  validate_batches-All ms (b ∷ bs) a =
      let (hashes, k, counted, enough) = a.0 in
      let many : leb (2 * g_min_invalid_nodes c) k ≡ true = ground arith in
      rw (hashes, ◌>>=◌, counted, many) (validate_batches-All ms bs a.1)

  module _ {v : ViewNode P} (sound : IsSound P c v) where
    -- the batches of a part of the log, whose other messages come before or after
    part-IsAccepted :
        (left i other_left other_i : ℕ) (preps preps' ms : List (IndexedMessage Double))
        (pres pres' breqs : List (BatchRequests Double Request))
        → i + left ≤ index_size c
        → other_i + other_left ≤ index_size c
        → ((s t : ℕ) → i ≤ s → s < i + left → other_i ≤ t → t < other_i + other_left → t ≢ s)
        → prepared_entries P c v other_left other_i ≡ some (preps', pres')
        → (ms ≡ preps ++ preps') ⊎ (ms ≡ preps' ++ preps)
        → All (IsChosen P c id sound left i preps) breqs
        → All (IsAccepted ms) breqs
    part-IsAccepted left i ol oi preps preps' ms pres pres' [] fits fits' apart e where_ a = tt
    part-IsAccepted left i ol oi preps preps' ms pres pres' (b ∷ bs) fits fits' apart e where_ a =
        let (s, idx, lo, hi, same, use_, enough) = a.0 in
        let foreign =
          prepared_entries-Foreign P c id sound s idx ol oi preps' pres' (omega arith) use_ fits'
            (λ t l h. apart s t lo hi l h) e in
        let hashes =
          check_hashes_config P c (other P c id) (v.breq_store s) c.g_batch_size 0
          ∙ sound.hashes s idx (omega arith) use_ in
        let rest =
          part-IsAccepted left i ol oi preps preps' ms pres pres' bs fits fits' apart e where_
            a.1 in
        let good : IsAccepted ms (v.breq_store s) = elim where_ [
          | inl before ↦
              let (k, counted, many) = enough [] preps' tt foreign in
              rw before (hashes, k, counted, many)
          | inr after ↦
              let (k, counted, many) = enough preps' [] foreign tt in
              rw after (hashes, k, rw (append_nil preps) at counted, many)
        ] in
        (subst (IsAccepted ms) (sym same) good, rest)

    -- The view change message that a node with a sound log makes, where it fails no assert, every other node
    -- accepts: a node with the same configuration but its number. The log has an entry at least.
    pub init_view_change-accepted :
        (m : PbftViewChangeMsg Double Request)
        → 0 < index_size c
        → init_view_change P c v ≡ some m
        → validate_view_change P (other P c id) m ≡ some tt
    unfolding validate_view_change
    init_view_change-accepted m room h =
        let (next, preps, pres, preps', pres', e, e', all, all') = init_view_change_lem P c v m h in
        let start = start_of P c v in
        let size = index_size c in
        let below : start < size = mod_below (v.node.g_last_stable_chkpt + 1) size room in
        let first = entries-IsChosen P c id sound (size - start) start preps pres (omega arith) e in
        let second = entries-IsChosen P c id sound start 0 preps' pres' (omega arith) e' in
        let ms = preps ++ preps' in
        rw (all, all')
          (validate_batches-All ms (pres ++ pres') (
            All-append (IsAccepted ms) pres pres'
              (part-IsAccepted (size - start) start start 0 preps preps' ms pres pres' pres
                (omega arith) (omega arith) (λ s t a b d x. omega arith) e' (inl refl) first)
              (part-IsAccepted start 0 (size - start) start preps' preps ms pres' pres pres'
                (omega arith) (omega arith) (λ s t a b d x. omega arith) e (inr refl) second)))
