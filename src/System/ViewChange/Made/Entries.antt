-- ===== src/System/ViewChange/Made/Entries.antt =====
-- What the entries of a sound log put into a view change message (transport/message.cpp: PBFTViewChangeMsg::init).
use algorand.Prelude.{
  All, All-append, ℕ, zero, suc, ◌+◌, ◌*◌, ◌≤◌, ◌<◌, ◌≡◌, ◌≢◌, ◌⊎◌, false, ◌&&◌, List, [], ◌∷◌,
  ◌++◌, some, get_elem?, length, append_nil, append_assoc, ltb, leb, leb→le, arith, Bool-cases,
  Option-cases, inl, inr, refl, subst, sym, ◌∙◌,
}
use algorand.Prelude.Fallible.{>>=-eq-some}
use algorand.Transport.Messages.{BatchRequests, IndexedMessage}
use algorand.System.Node.{Platform, Config, index_size, g_min_invalid_nodes, uint64_max}
use algorand.System.ViewChange.{
  ViewNode, last, count_prepares, found_prepares, prepared_entry, prepared_entries, count_matching,
}
use algorand.System.ViewChange.Made.Entry.{
  other, Foreign, InUse, IsSound, count_matching_skip, count_prepares_lem, found_prepares-Row,
  count_matching-found,
}

module _ (P : Platform) (c : Config) (id : ℕ) where
  open P.D use {Double}
  open P use {Request}

  -- what an entry of the log adds: nothing, or its messages and its batch
  prepared_entry-cases :
      (v : ViewNode P) (s : ℕ) (preps : List (IndexedMessage Double))
      (pres : List (BatchRequests Double Request))
      → prepared_entry P c v (v.breq_store s) ≡ some (preps, pres)
      → ((preps ≡ []) × (pres ≡ []))
        ⊎ ((idx : ℕ) × (cnt : ℕ) × InUse P c v s idx
            × (count_prepares P c v.node (v.breq_store s) idx c.g_node_cnt 0 0 ≡ some cnt)
            × (2 * g_min_invalid_nodes c ≤ cnt)
            × (preps ≡ found_prepares P c v.node idx c.g_node_cnt 0)
            × (pres ≡ v.breq_store s ∷ []))
  unfolding prepared_entry
  prepared_entry-cases v s preps pres h =
      elim (Option-cases (get_elem? (v.breq_store s).index (last P c))) [
        | inl e ↦ ground arith
        | inr (idx, e) ↦
            elim (Bool-cases (ltb v.node.g_last_stable_chkpt idx && ltb idx uint64_max)) [
              | inr old ↦ inl (ground arith, ground arith)
              | inl recent ↦
                  elim (Option-cases
                    (count_prepares P c v.node (v.breq_store s) idx c.g_node_cnt 0 0)) [
                      | inl e' ↦ ground arith
                      | inr (cnt, e') ↦ elim (Bool-cases (leb (2 * g_min_invalid_nodes c) cnt)) [
                        | inr few ↦ inl (ground arith, ground arith)
                        | inl enough ↦ inr (
                          idx,
                          cnt,
                          (e, recent),
                          e',
                          leb→le _ _ enough,
                          ground arith,
                          ground arith,
                        )
                      ]
                    ]
            ]
      ]

  -- a message of one entry is not for the batch of another
  entry-Foreign :
      {v : ViewNode P} (sound : IsSound P c v) (s s' idx idx' : ℕ)
      (ms : List (IndexedMessage Double))
      → s < index_size c
      → s' < index_size c
      → InUse P c v s idx
      → InUse P c v s' idx'
      → s ≢ s'
      → All (λ m. get_elem? (v.breq_store s).index 0 ≡ some m.index) ms
      → Foreign P c (v.breq_store s') ms
  entry-Foreign sound s s' idx idx' [] small small' use_ use' differ row = tt
  entry-Foreign {v} sound s s' idx idx' (m ∷ ms) small small' use_ use' differ row = (
    λ same. differ (sound.apart s s' idx idx' m.index small small' use_ use' row.0 same),
    entry-Foreign sound s s' idx idx' ms small small' use_ use' differ row.1,
  )

  entries_zero :
      (v : ViewNode P) (i : ℕ) (preps : List (IndexedMessage Double))
      (pres : List (BatchRequests Double Request))
      → prepared_entries P c v 0 i ≡ some (preps, pres)
      → (preps ≡ []) × (pres ≡ [])
  unfolding prepared_entries
  entries_zero v i preps pres h = (ground arith, ground arith)

  entries_suc :
      (v : ViewNode P) (left i : ℕ) (preps : List (IndexedMessage Double))
      (pres : List (BatchRequests Double Request))
      → prepared_entries P c v (suc left) i ≡ some (preps, pres)
      → (ps : List (IndexedMessage Double)) × (bs : List (BatchRequests Double Request))
        × (ps' : List (IndexedMessage Double)) × (bs' : List (BatchRequests Double Request))
        × (prepared_entry P c v (v.breq_store i) ≡ some (ps, bs))
        × (prepared_entries P c v left (i + 1) ≡ some (ps', bs'))
        × (preps ≡ ps ++ ps')
        × (pres ≡ bs ++ bs')
  unfolding prepared_entries
  entries_suc v left i preps pres h =
      let ((ps, bs), e, h1) = >>=-eq-some (prepared_entry P c v (v.breq_store i)) _ h in
      let ((ps', bs'), e', h2) = >>=-eq-some (prepared_entries P c v left (i + 1)) _ h1 in
      (ps, bs, ps', bs', e, e', ground arith, ground arith)

  module _ {v : ViewNode P} (sound : IsSound P c v) where
    -- an entry adds no message for the batch of another
    prepared_entry-Foreign :
        (s idx i : ℕ) (ps : List (IndexedMessage Double)) (bs : List (BatchRequests Double Request))
        → s < index_size c
        → InUse P c v s idx
        → i < index_size c
        → i ≢ s
        → prepared_entry P c v (v.breq_store i) ≡ some (ps, bs)
        → Foreign P c (v.breq_store s) ps
    prepared_entry-Foreign s idx i ps bs small use_ small' differ h =
        elim (prepared_entry-cases v i ps bs h) [
          | inl (none_, none_') ↦ subst (Foreign P c (v.breq_store s)) (sym none_) tt
          | inr (idx', cnt, use_', counted, enough, found, batch) ↦
              subst (Foreign P c (v.breq_store s)) (sym found) (
                entry-Foreign sound i s idx' idx (found_prepares P c v.node idx' c.g_node_cnt 0)
                  small' small use_' use_ differ
                  (found_prepares-Row P c sound i idx' c.g_node_cnt 0 small' use_' (omega arith)))
        ]

    -- nor does a range of other entries
    pub prepared_entries-Foreign :
        (s idx left i : ℕ) (preps : List (IndexedMessage Double))
        (pres : List (BatchRequests Double Request))
        → s < index_size c
        → InUse P c v s idx
        → i + left ≤ index_size c
        → ((t : ℕ) → i ≤ t → t < i + left → t ≢ s)
        → prepared_entries P c v left i ≡ some (preps, pres)
        → Foreign P c (v.breq_store s) preps
    prepared_entries-Foreign s idx zero i preps pres small use_ fits out h =
        subst (Foreign P c (v.breq_store s)) (sym (entries_zero v i preps pres h).0) tt
    prepared_entries-Foreign s idx (suc left) i preps pres small use_ fits out h =
        let (ps, bs, ps', bs', e, e', all, all') = entries_suc v left i preps pres h in
        let rest =
          prepared_entries-Foreign s idx left (i + 1) ps' bs' small use_ (omega arith)
            (λ t lo hi. out t (omega arith) (omega arith)) e' in
        subst (Foreign P c (v.breq_store s)) (sym all) (
          All-append (λ m. get_elem? (v.breq_store s).index 0 ≢ some m.index) ps ps'
            (prepared_entry-Foreign s idx i ps bs small use_ (omega arith)
              (out i (omega arith) (omega arith)) e)
            rest)

    -- Among messages for other batches, those of the list suffice for the batch of the entry s.
    abbrev pub Suffices : ℕ → List (IndexedMessage Double) → Type 0
    Suffices s preps =
        (front back : List (IndexedMessage Double))
        → Foreign P c (v.breq_store s) front
        → Foreign P c (v.breq_store s) back
        → (k : ℕ) × (count_matching P (other P c id) (v.breq_store s) (front ++ (preps ++ back))
              (λ _. false) 0
            ≡ some k)
          × (2 * g_min_invalid_nodes c ≤ k)

    -- a batch that stands in the log at one of `left` entries from i on, and for which the messages suffice
    abbrev pub IsChosen :
        ℕ → ℕ → List (IndexedMessage Double) → BatchRequests Double Request → Type 0
    IsChosen left i preps breq =
        (s : ℕ) × (idx : ℕ) × (i ≤ s)
        × (s < i + left)
        × (breq ≡ v.breq_store s)
        × InUse P c v s idx
        × Suffices s preps

    entry-Suffices :
        (s idx cnt first : ℕ)
        → s < index_size c
        → InUse P c v s idx
        → count_prepares P c v.node (v.breq_store s) idx c.g_node_cnt 0 0 ≡ some cnt
        → 2 * g_min_invalid_nodes c ≤ cnt
        → get_elem? (v.breq_store s).index 0 ≡ some first
        → Suffices s (found_prepares P c v.node idx c.g_node_cnt 0)
    entry-Suffices s idx cnt first small use_ counted enough e front back f g =
        let found = found_prepares P c v.node idx c.g_node_cnt 0 in
        let all = count_prepares_lem P c v.node (v.breq_store s) idx c.g_node_cnt 0 0 cnt counted in
        (
          0 + length found,
          count_matching_skip P c id (v.breq_store s) first front (found ++ back) (λ _. false) 0 e f
              ∙ count_matching-found P c id sound s idx c.g_node_cnt 0 0 cnt 0 (λ _. false) back
                  small use_ (omega arith) counted g first e (λ i lo. refl),
          omega (arith, all),
        )

    Suffices-within :
        (s : ℕ) (a ps b : List (IndexedMessage Double))
        → Foreign P c (v.breq_store s) a
        → Foreign P c (v.breq_store s) b
        → Suffices s ps
        → Suffices s (a ++ (ps ++ b))
    Suffices-within s a ps b f g enough front back f' g' =
        let same : front ++ ((a ++ (ps ++ b)) ++ back) ≡ (front ++ a) ++ (ps ++ (b ++ back)) =
          simp (append_assoc) in
        let Out =
          λ (m : IndexedMessage Double). get_elem? (v.breq_store s).index 0 ≢ some m.index in
        rw same (
          enough (front ++ a) (b ++ back) (All-append Out front a f' f)
            (All-append Out b back g g'))

    -- the batch of an entry, with the messages of a range from the entry on
    head-IsChosen :
        (left i : ℕ) (ps ps' : List (IndexedMessage Double))
        (bs pres' : List (BatchRequests Double Request))
        → i + suc left ≤ index_size c
        → prepared_entry P c v (v.breq_store i) ≡ some (ps, bs)
        → prepared_entries P c v left (i + 1) ≡ some (ps', pres')
        → All (IsChosen (suc left) i (ps ++ ps')) bs
    head-IsChosen left i ps ps' bs pres' fits e e' = elim (prepared_entry-cases v i ps bs e) [
      | inl (none_, none_') ↦ subst (All (IsChosen (suc left) i (ps ++ ps'))) (sym none_') tt
      | inr (idx, cnt, use_, counted, enough, found, batch) ↦
          let (first, e0) = sound.numbered i idx (omega arith) use_ in
          let suffices = entry-Suffices i idx cnt first (omega arith) use_ counted enough e0 in
          let suffices' = subst (Suffices i) (sym found) suffices in
          let later =
            prepared_entries-Foreign i idx left (i + 1) ps' pres' (omega arith) use_ (omega arith)
              (λ t lo hi. omega arith) e' in
          subst (All (IsChosen (suc left) i (ps ++ ps'))) (sym batch) (
            (
              i,
              idx,
              omega arith,
              omega arith,
              refl,
              use_,
              Suffices-within i [] ps ps' tt later suffices',
            ),
            tt,
          )
    ]

    later-IsChosen :
        (left i : ℕ) (ps ps' : List (IndexedMessage Double))
        (bs bs' : List (BatchRequests Double Request))
        → i + suc left ≤ index_size c
        → prepared_entry P c v (v.breq_store i) ≡ some (ps, bs)
        → All (IsChosen left (i + 1) ps') bs'
        → All (IsChosen (suc left) i (ps ++ ps')) bs'
    later-IsChosen left i ps ps' bs [] fits e a = tt
    later-IsChosen left i ps ps' bs (b ∷ bs') fits e a =
        let (s, idx, lo, hi, same, use_, enough) = a.0 in
        let before =
          prepared_entry-Foreign s idx i ps bs (omega arith) use_ (omega arith) (omega arith) e in
        let wide = Suffices-within s ps ps' [] before tt enough in
        (
          (
            s,
            idx,
            omega arith,
            omega arith,
            same,
            use_,
            subst (λ l. Suffices s (ps ++ l)) (append_nil ps') wide,
          ),
          later-IsChosen left i ps ps' bs bs' fits e a.1,
        )

    pub entries-IsChosen :
        (left i : ℕ) (preps : List (IndexedMessage Double))
        (pres : List (BatchRequests Double Request))
        → i + left ≤ index_size c
        → prepared_entries P c v left i ≡ some (preps, pres)
        → All (IsChosen left i preps) pres
    entries-IsChosen zero i preps pres fits h =
        subst (All (IsChosen zero i preps)) (sym (entries_zero v i preps pres h).1) tt
    entries-IsChosen (suc left) i preps pres fits h =
        let (ps, bs, ps', bs', e, e', all, all') = entries_suc v left i preps pres h in
        let rest = entries-IsChosen left (i + 1) ps' bs' (omega arith) e' in
        rw (all, all')
          (All-append (IsChosen (suc left) i (ps ++ ps')) bs bs'
            (head-IsChosen left i ps ps' bs bs' fits e e')
            (later-IsChosen left i ps ps' bs bs' fits e rest))
