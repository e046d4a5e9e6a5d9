-- ===== src/System/Worker/Keys.antt =====
-- The exchange of keys between two servers (system/worker_thread.cpp: send_key, process_key_exchange).
use algorand.Prelude.{
  ℕ, ◌+◌, ◌%◌, ◌^◌, ◌≤◌, ◌≡◌, ◌&&◌, true, false, not, some, map, ◌++◌, set, ◌==◌, ==_iff, ltb, leb,
  if◌then◌else◌, arith, refl, lookup, insert, lookup-insert, text_eq_refl, Bool-cases, inl, inr,
}
use algorand.Prelude.Int.{pos, ◌+ℤ◌}
use algorand.Blockchain.Algorand.{Algorand, getkey}
use algorand.System.Node.{Platform, Config, Packet, keyex_packet, Node}
use algorand.System.Send.{others_from}
use algorand.System.Send.Laws.{addressed, addressed-append, addressed-others}
use algorand.System.Worker.{key_message, readies, send_key, process_key_exchange}

module _ (P : Platform) where
  -- send_key sends one more message to each other server and to each client, and no more to any other node.
  pub send_key-addressed :
      (c : Config) (n : Node P) (j : ℕ)
      → addressed j (send_key P c n).sent
        ≡ (if ltb j (c.g_node_cnt + c.g_client_node_cnt) && not (j == c.g_node_id) then 1 else 0)
          + addressed j n.sent
  unfolding send_key
  send_key-addressed c n j =
      let all = c.g_node_cnt + c.g_client_node_cnt in
      let packet : Packet P.D.Double P.Request = keyex_packet (key_message P c n) in
      rw
        (
          addressed-append j (map (λ k. (k, packet)) (others_from P c all 0)) n.sent,
          addressed-others P c packet j all 0,
        )
        (ground arith)

  -- What a server, with a number up to 3 in its data package, sends as its key, another server accepts: it then has the key
  -- with a stake of 100, and 100 more in its total of stakes.
  pub process_key_exchange-key_message :
      (c c' : Config) (n n' : Node P) (id : ℕ)
      → n.m_dp.node_id ≡ pos id
      → id ≤ 3
      → c.g_node_id ≤ 3
      → (n'' : Node P) × (process_key_exchange P c' (key_message P c n) n' ≡ some n'')
        × (lookup n.m_dp.pk n''.g_algorand.wallet ≡ some (pos 100))
        × (n''.g_algorand.sum_w ≡ n'.g_algorand.sum_w +ℤ pos 100)
  unfolding process_key_exchange getkey
  process_key_exchange-key_message c c' n n' id e small server =
      let other : (c.g_node_id == 4) ≡ false = ground (arith, ==_iff c.g_node_id 4) in
      let in_range : leb id 3 ≡ true = ground arith in
      let learnt : lookup n.m_dp.pk (insert n.m_dp.pk (pos 100) n'.g_algorand.wallet)
          ≡ some (pos 100) =
        ground (
          arith,
          lookup-insert n.m_dp.pk n.m_dp.pk (pos 100) n'.g_algorand.wallet,
          text_eq_refl n.m_dp.pk,
        ) in
      let a : Algorand P.O = record n'.g_algorand {
        publickeys = set n'.g_algorand.publickeys id n.m_dp.pk;
        wallet = insert n.m_dp.pk (pos 100) n'.g_algorand.wallet;
        sum_w = n'.g_algorand.sum_w +ℤ pos 100;
      } in
      let told : Node P = record n' { g_algorand = a; tot_key = (n'.tot_key + 1) % 2 ^ 64 } in
      let started : Node P = record told {
        sent = readies P c' c'.g_client_node_cnt c'.g_node_cnt ++ n'.sent;
      } in
      elim (Bool-cases ((n'.tot_key + 1) % 2 ^ 64 + 1 == c'.g_node_cnt + c'.g_client_node_cnt)) [
        | inl all ↦ (started, rw (other, e, in_range, all) refl, learnt, refl)
        | inr more ↦ (told, rw (other, e, in_range, more) refl, learnt, refl)
      ]
