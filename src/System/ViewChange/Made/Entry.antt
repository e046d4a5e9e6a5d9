-- ===== src/System/ViewChange/Made/Entry.antt =====
-- What a node with a sound log puts into its view change message for one batch, and how another node counts it
-- (transport/message.cpp: PBFTViewChangeMsg::init and validate).
use algorand.Prelude.{
  All, update, ℕ, zero, suc, ◌+◌, ◌%◌, ◌≤◌, ◌<◌, ◌≡◌, ◌≢◌, Bool, true, false, ◌&&◌, List, [], ◌∷◌,
  ◌++◌, some, text_eq, get_elem?, length, append_nil, ◌==◌, ==_iff, ==_refl, ltb, arith, Bool-cases,
  Option-cases, inl, inr, refl, ◌∙◌, Text, lt→ltb,
}
use algorand.Prelude.Fallible.{◌>>=◌}
use algorand.Transport.Messages.{BatchRequests, IndexedMessage}
use algorand.System.Node.{Platform, Config, Node, index_size, uint64_max}
use algorand.System.Batch.{check_hashes}
use algorand.System.ViewChange.{ViewNode, last, count_prepares, found_prepares, count_matching}

update_above :
    (received : ℕ → Bool) {a j i : ℕ}
    → a ≡ j
    → received i ≡ false
    → j + 1 ≤ i
    → update received a true i ≡ false
update_above received {a} {j} {i} e f h = ground (arith, ==_iff a i)

module _ (P : Platform) (c : Config) where
  open P.D use {Double}
  open P use {Request}

  -- Messages that are not for the batch: their first number is another.
  abbrev pub Foreign : BatchRequests Double Request → List (IndexedMessage Double) → Type 0
  Foreign breq ms = All (λ m. get_elem? breq.index 0 ≢ some m.index) ms

  -- a batch of the log that is newer than the checkpoint, with the number of its last request
  abbrev pub InUse : ViewNode P → ℕ → ℕ → Type 0
  InUse v s idx =
      (get_elem? (v.breq_store s).index (last P c) ≡ some idx)
      × ((ltb v.node.g_last_stable_chkpt idx && ltb idx uint64_max) ≡ true)

  -- The log of a node that works as it should: the batches in use have a first number and the hashes of their requests, and
  -- no two have the same first number; and a prepare message for such a batch stands in the column of its sender and has the batch's first
  -- number.
  pub record IsSound (v : ViewNode P) : Type 0 where
    pub hashes :
        (s idx : ℕ)
        → s < index_size c
        → InUse v s idx
        → check_hashes P c (v.breq_store s) c.g_batch_size 0 ≡ some tt
    pub numbered :
        (s idx : ℕ)
        → s < index_size c
        → InUse v s idx
        → (first : ℕ) × (get_elem? (v.breq_store s).index 0 ≡ some first)
    pub apart :
        (s s' idx idx' first : ℕ)
        → s < index_size c
        → s' < index_size c
        → InUse v s idx
        → InUse v s' idx'
        → get_elem? (v.breq_store s).index 0 ≡ some first
        → get_elem? (v.breq_store s').index 0 ≡ some first
        → s ≡ s'
    pub sender :
        (s idx j : ℕ)
        → s < index_size c
        → InUse v s idx
        → j < c.g_node_cnt
        → (v.node.prep_store (idx % index_size c) j).end_index ≡ idx
        → ((v.node.prep_store (idx % index_size c) j).return_node ≡ j)
          × (get_elem? (v.breq_store s).index 0
              ≡ some (v.node.prep_store (idx % index_size c) j).index)

  -- the number that the first loop finds is that of the messages that the second loop adds
  pub count_prepares_lem :
      (n : Node P) (breq : BatchRequests Double Request) (idx left j k r : ℕ)
      → count_prepares P c n breq idx left j k ≡ some r
      → r ≡ k + length (found_prepares P c n idx left j)
  unfolding count_prepares found_prepares
  count_prepares_lem n breq idx zero j k r h = ground arith
  count_prepares_lem n breq idx (suc left) j k r h = ground (
    arith,
    count_prepares_lem n breq idx left (j + 1) k r,
    count_prepares_lem n breq idx left (j + 1) (k + 1) r,
  )

  -- the messages that the second loop adds are for the batch
  pub found_prepares-Row :
      {v : ViewNode P} (sound : IsSound v) (s idx left j : ℕ)
      → s < index_size c
      → InUse v s idx
      → j + left ≤ c.g_node_cnt
      → All
          (λ m. get_elem? (v.breq_store s).index 0 ≡ some m.index)
          (found_prepares P c v.node idx left j)
  unfolding found_prepares
  found_prepares-Row sound s idx zero j small use_ fits = tt
  found_prepares-Row {v} sound s idx (suc left) j small use_ fits =
      let rest = found_prepares-Row sound s idx left (j + 1) small use_ (omega arith) in
      let m = v.node.prep_store (idx % index_size c) j in
      elim (Bool-cases (m.end_index == idx)) [
        | inl hit ↦ rw hit (
          (sound.sender s idx j small use_ (omega arith) ((==_iff m.end_index idx).0 hit)).1,
          rest,
        )
        | inr miss ↦ rw miss rest
      ]

  -- a message that the first loop counts has the view and the last hash of the batch
  count_prepares_hit :
      (n : Node P) (breq : BatchRequests Double Request) (idx left j k r : ℕ)
      → let m = n.prep_store (idx % index_size c) j in
        (m.end_index == idx) ≡ true
        → count_prepares P c n breq idx (suc left) j k ≡ some r
        → (h : Text) × (get_elem? breq.hash (last P c) ≡ some h)
          × ((breq.view == m.view) ≡ true)
          × (text_eq h m.hash ≡ true)
          × (count_prepares P c n breq idx left (j + 1) (k + 1) ≡ some r)
  unfolding count_prepares
  count_prepares_hit n breq idx left j k r hit h =
      elim (Option-cases (get_elem? breq.hash (last P c))) [
        | inl e ↦ ground arith
        | inr (t, e) ↦ (t, e, ground arith, ground arith, ground arith)
      ]

module _ (P : Platform) (c : Config) (id : ℕ) where
  open P.D use {Double}
  open P use {Request}

  -- the configuration of another node
  abbrev pub other : Config
  other = record c { g_node_id = id }

  pub count_matching_skip :
      (breq : BatchRequests Double Request) (first : ℕ) (ms rest : List (IndexedMessage Double))
      (received : ℕ → Bool) (k : ℕ)
      → get_elem? breq.index 0 ≡ some first
      → Foreign P c breq ms
      → count_matching P other breq (ms ++ rest) received k
        ≡ count_matching P other breq rest received k
  unfolding count_matching
  count_matching_skip breq first [] rest received k e f = refl
  count_matching_skip breq first (m ∷ ms) rest received k e f =
      let differs : (first == m.index) ≡ false = ground (arith, ==_iff first m.index) in
      rw (e, ◌>>=◌, differs) (count_matching_skip breq first ms rest received k e f.1)

  -- a message for the batch, of a node that did not count yet, counts
  count_matching_take :
      (breq : BatchRequests Double Request) (m : IndexedMessage Double)
      (ms : List (IndexedMessage Double)) (received : ℕ → Bool) (k : ℕ) (h : Text)
      → get_elem? breq.index 0 ≡ some m.index
      → get_elem? breq.index (last P c) ≡ some m.end_index
      → get_elem? breq.hash (last P c) ≡ some h
      → (breq.view == m.view) ≡ true
      → text_eq h m.hash ≡ true
      → m.return_node < c.g_node_cnt
      → received m.return_node ≡ false
      → count_matching P other breq (m ∷ ms) received k
        ≡ count_matching P other breq ms (update received m.return_node true) (k + 1)
  unfolding count_matching
  count_matching_take breq m ms received k h e e' e2 view hash node new =
      rw (e, e', e2, ◌>>=◌, ==_refl m.index, ==_refl m.end_index, view, hash, lt→ltb _ _ node, new)
        refl

  -- and each of them counts when another node checks them
  pub count_matching-found :
      {v : ViewNode P} (sound : IsSound P c v) (s idx left j k r k' : ℕ) (received : ℕ → Bool)
      (back : List (IndexedMessage Double))
      → s < index_size c
      → InUse P c v s idx
      → j + left ≤ c.g_node_cnt
      → count_prepares P c v.node (v.breq_store s) idx left j k ≡ some r
      → Foreign P c (v.breq_store s) back
      → (first : ℕ) → get_elem? (v.breq_store s).index 0 ≡ some first
      → ((i : ℕ) → j ≤ i → received i ≡ false)
      → count_matching P other
          (v.breq_store s)
          (found_prepares P c v.node idx left j ++ back)
          received
          k'
        ≡ some (k' + length (found_prepares P c v.node idx left j))
  unfolding found_prepares count_prepares count_matching
  count_matching-found {v} sound s idx zero j k r k' received back small use_ fits counted foreign
        first e new =
      let skipped = count_matching_skip (v.breq_store s) first back [] received k' e foreign in
      rw (append_nil back) at skipped ∙ ground arith
  count_matching-found {v} sound s idx (suc left) j k r k' received back small use_ fits counted
        foreign first e new =
      let m = v.node.prep_store (idx % index_size c) j in
      elim (Bool-cases (m.end_index == idx)) [
        | inl hit ↦
            let at = (==_iff m.end_index idx).0 hit in
            let (from, same) = sound.sender s idx j small use_ (omega arith) at in
            let (h, hash, view, text, counted') =
              count_prepares_hit P c v.node (v.breq_store s) idx left j k r hit counted in
            let taken =
              count_matching_take (v.breq_store s) m
                (found_prepares P c v.node idx left (j + 1) ++ back) received k' h same
                (rw at use_.0) hash view text (omega (arith, from))
                (rw from (new j (omega arith))) in
            let rest =
              count_matching-found sound s idx left (j + 1) (k + 1) r (k' + 1)
                (update received m.return_node true) back small use_ (omega arith) counted' foreign
                first e (λ i lo. update_above received from (new i (omega arith)) lo) in
            rw hit (taken ∙ rest ∙ ground arith)
        | inr miss ↦ rw miss (
            count_matching-found sound s idx left (j + 1) k r k' received back small use_
              (omega arith) (rw miss at counted) foreign first e (λ i lo. new i (omega arith)))
      ]
