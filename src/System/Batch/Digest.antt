-- ===== src/System/Batch/Digest.antt =====
-- The numbers and the digests of a batch
-- (transport/message.cpp: BatchRequests::copy_from_txn, validate).
use algorand.Prelude.{
  ℕ, zero, suc, ◌+◌, ◌%◌, ◌^◌, ◌≡◌, ◌≤◌, ◌<◌, List, [], ◌∷◌, map, some, length, get_elem?, ◌==◌,
  arith, refl, Bool-cases, Option-cases, inl, inr, text_eq_refl, sym,
}
use algorand.Transport.Messages.{YcsbClientQueryMessage, BatchRequests}
use algorand.System.Node.{Platform, Config, TxnManager, Node, index_size}
use algorand.System.ClientBatch.{digest_of, log_request, fill_batch, batch_from_txn}
use algorand.System.Batch.{check_hashes}

get_elem?-map :
    {A B : Type 0} (f : A → B) (xs : List A) (i : ℕ) {x : A}
    → get_elem? xs i ≡ some x
    → get_elem? (map f xs) i ≡ some (f x)
get_elem?-map f [] i h = cc
get_elem?-map f (y ∷ xs) zero h = cc
get_elem?-map f (y ∷ xs) (suc i) h = get_elem?-map f xs i h

get_elem?-some :
    {A : Type 0} (xs : List A) (i : ℕ) → i < length xs → (x : A) × (get_elem? xs i ≡ some x)
get_elem?-some [] i h = ground arith
get_elem?-some (x ∷ xs) zero h = (x, refl)
get_elem?-some (x ∷ xs) (suc i) h = get_elem?-some xs i (omega arith)

-- the numbers modulo 2 ^ 64 from i on, `left` of them
abbrev pub numbers : ℕ → ℕ → List ℕ
numbers zero i = []
numbers (suc left) i = i ∷ numbers left ((i + 1) % 2 ^ 64)

module _ (P : Platform) (c : Config) where
  open P.D use {Double}
  open P use {Request}

  check_hashes-accepts :
      (breq : BatchRequests Double Request) (left i : ℕ)
      → breq.hash ≡ map (digest_of P c) breq.request_msg
      → i + left ≤ length breq.request_msg
      → check_hashes P c breq left i ≡ some tt
  unfolding check_hashes
  check_hashes-accepts breq zero i h le = refl
  check_hashes-accepts breq (suc left) i h le =
      let (q, e) = get_elem?-some breq.request_msg i (omega arith) in
      rw (
        h,
        get_elem?-map (digest_of P c) breq.request_msg i e,
        e,
        text_eq_refl (digest_of P c q),
        check_hashes-accepts breq left (i + 1) h (omega arith),
      )

  fill_batch-numbers :
      (left i : ℕ) (n : Node P) {requests : List (YcsbClientQueryMessage Double Request)}
      {index : List ℕ} {n' : Node P}
      → fill_batch P c left i n ≡ some (requests, index, n')
      → (length requests ≡ left) × (index ≡ numbers left i)
  unfolding fill_batch
  fill_batch-numbers zero i n h = (cc, cc)
  fill_batch-numbers (suc left) i n {requests} {index} {n'} h =
      elim (Bool-cases ((n.cqry_store (i % index_size c)).txn_id == i)) [
        | inl here ↦
            elim (Option-cases (fill_batch P c left ((i + 1) % 2 ^ 64) (log_request P c i n))) [
              | inl e ↦ ground arith
              | inr ((rs, is, m), e) ↦
                  let (len, same) =
                    fill_batch-numbers left ((i + 1) % 2 ^ 64) (log_request P c i n) e in
                  let out : some ((n.cqry_store (i % index_size c)) ∷ rs, i ∷ is, m)
                      ≡ some (requests, index, n') =
                    rw (here, e) at h in
                  let out_index : i ∷ is ≡ index = cc in
                  let out_requests : (n.cqry_store (i % index_size c)) ∷ rs ≡ requests = cc in
                  (rw (sym out_requests, len), rw (sym out_index, same))
            ]
        | inr other ↦ ground arith
      ]

  -- A batch that the primary makes numbers its requests from the first number of its set on, with as
  -- many requests as a batch has, and the check of the digests at the receiving nodes, with the same
  -- batch size, accepts it.
  pub batch_from_txn-validates :
      (txn : TxnManager Double Request) (n : Node P) {breq : BatchRequests Double Request}
      {n' : Node P}
      → batch_from_txn P c txn n ≡ some (breq, n')
      → (breq.index ≡ numbers c.g_batch_size (n.batch_set (txn.cbatch % index_size c)))
        × (length breq.request_msg ≡ c.g_batch_size)
        × (check_hashes P c breq c.g_batch_size 0 ≡ some tt)
  unfolding batch_from_txn
  batch_from_txn-validates txn n {breq} {n'} h =
      let begin = n.batch_set (txn.cbatch % index_size c) in
      elim (Bool-cases (n.g_view == c.g_node_id)) [
        | inl primary ↦ elim (Option-cases (fill_batch P c c.g_batch_size begin n)) [
          | inl e ↦ ground arith
          | inr ((rs, is, m), e) ↦
              let (len, same) = fill_batch-numbers c.g_batch_size begin n e in
              let index_eq : is ≡ breq.index = ground arith in
              let request_eq : rs ≡ breq.request_msg = ground arith in
              let hash_eq : map (digest_of P c) rs ≡ breq.hash = ground arith in
              let size : length breq.request_msg ≡ c.g_batch_size = rw (sym request_eq, len) in
              (
                rw (sym index_eq, same),
                size,
                check_hashes-accepts breq c.g_batch_size 0 (rw (sym hash_eq, request_eq))
                    (omega arith),
              )
        ]
        | inr other ↦ ground arith
      ]

  -- the check is the same whatever the number of the node
  pub check_hashes_config :
      (c' : Config) (breq : BatchRequests Double Request) (left i : ℕ)
      → check_hashes P c' breq left i ≡ check_hashes P c breq left i
  unfolding check_hashes
  check_hashes_config c' breq zero i = refl
  check_hashes_config c' breq (suc left) i = rw (check_hashes_config c' breq left (i + 1)) refl
