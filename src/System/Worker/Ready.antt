-- ===== src/System/Worker/Ready.antt =====
-- The clients that the exchange of keys lets start (system/worker_thread.cpp: process_key_exchange).
use algorand.Prelude.{
  ℕ, zero, suc, ◌+◌, ◌%◌, ◌^◌, ◌<◌, ◌≡◌, ◌&&◌, not, refl, List, [], ◌∷◌, ◌++◌, some, All,
  All-append, ◌==◌, leb, ltb, if◌then◌else◌, arith, Bool-cases, Option-cases, inl, inr,
}
use algorand.Blockchain.Algorand.{getkey}
use algorand.Transport.Messages.{KeyExchange}
use algorand.System.Node.{Platform, Config, Packet, ready_packet, Node}
use algorand.System.Send.Laws.{addressed, addressed-append}
use algorand.System.Worker.{readies, process_key_exchange}

module _ (P : Platform) (c : Config) where
  addressed-readies :
      (j left i : ℕ)
      → addressed j (readies P c left i) ≡ (if leb i j && ltb j (i + left) then 1 else 0)
  unfolding readies
  addressed-readies j zero i = ground arith
  addressed-readies j (suc left) i = ground (
    arith,
    addressed-readies j left (i + 1),
    addressed-append j (readies P c left (i + 1)) ((i, ready_packet) ∷ []),
  )

  readies-AllReady : (left i : ℕ) → All (λ s. s.1 ≡ ready_packet) (readies P c left i)
  unfolding readies
  readies-AllReady zero i = tt
  readies-AllReady (suc left) i =
      All-append (λ s. s.1 ≡ ready_packet) (readies P c left (i + 1)) _
        (readies-AllReady left (i + 1)) (refl, tt)

  -- While the count of keys does not wrap, a key that is accepted is counted, and the messages that are sent with
  -- it are READY messages: with the key that completes the count of all nodes but this one, one to each client and
  -- none to any other node; with any other key none at all.
  pub process_key_exchange-readies :
      (m : KeyExchange P.D.Double) (n : Node P) {n' : Node P}
      → n.tot_key + 1 < 2 ^ 64
      → process_key_exchange P c m n ≡ some n'
      → (n'.tot_key ≡ n.tot_key + 1)
        × (new : List (ℕ × Packet P.D.Double P.Request)) × (n'.sent ≡ new ++ n.sent)
        × All (λ s. s.1 ≡ ready_packet) new
        × ((j : ℕ)
            → addressed j new ≡ (
                if n.tot_key + 2 == c.g_node_cnt + c.g_client_node_cnt
                  && (leb c.g_node_cnt j && ltb j (c.g_node_cnt + c.g_client_node_cnt))
                then 1
                else 0))
  unfolding process_key_exchange
  process_key_exchange-readies m n {n'} small h =
      let next : (n.tot_key + 1) % 2 ^ 64 ≡ n.tot_key + 1 = ground arith in
      let clients = readies P c c.g_client_node_cnt c.g_node_cnt in
      elim (Option-cases (
        if not (m.return_node == 4)
        then getkey P.O m.dp.pk m.dp.node_id n.g_algorand
        else some n.g_algorand)) [
          | inl e ↦ ground arith
          | inr (a, e) ↦ elim (Bool-cases (n.tot_key + 2 == c.g_node_cnt + c.g_client_node_cnt)) [
            | inl all ↦ (
              ground arith,
              clients,
              ground arith,
              readies-AllReady c.g_client_node_cnt c.g_node_cnt,
              λ j. ground (arith, addressed-readies j c.g_client_node_cnt c.g_node_cnt),
            )
            | inr some_left ↦ (ground arith, [], ground arith, tt, λ j. ground arith)
          ]
        ]
