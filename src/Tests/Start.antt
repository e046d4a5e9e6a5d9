-- ===== src/Tests/Start.antt =====
-- The start of a node and the exchange of keys at concrete nodes.
use algorand.Prelude.{
  ℕ, ◌+◌, ◌≡◌, refl, lookup, arith, some, [], ◌∷◌, codes, set, replicate, insert, List, ◌++◌, ◌&&◌,
  leb, ltb, if◌then◌else◌, All, text_eq,
}
use algorand.Prelude.Int.{pos, ◌+ℤ◌, ◌-ℤ◌}
use algorand.Blockchain.Binomial.{n_cr_loop, n_cr, binary_distribution, sum_loop, algorand_sum}
use algorand.Blockchain.Vrf.{get_key_len, key_to_string, proof_to_output, vrf_rsa_sign}
use algorand.Blockchain.Algorand.{Algorand, DataPackage, algorand_init, init, getkey}
use algorand.Blockchain.Sortition.{hash_fraction, select, sortition, verify}
use algorand.Blockchain.Sortition.Agreement.Exchange.{verify-exchange}
use algorand.Transport.Messages.{KeyExchange}
use algorand.System.Node.{Node, Packet, ready_packet}
use algorand.System.Send.{create_message}
use algorand.System.Send.Laws.{addressed}
use algorand.System.Worker.{key_message, process_key_exchange}
use algorand.System.Worker.Keys.{process_key_exchange-key_message}
use algorand.System.Worker.Ready.{process_key_exchange-readies}
use algorand.Transport.Messages.{keyex}
use algorand.Tests.Setup.{fixed, openssl, openssl-RsaLaws, platform, config, user}
use algorand.Tests.Node.{node}

abbrev started : ℕ → Algorand openssl
started node_id = record user {
  publickeys = set (replicate 4 []) node_id (codes "PK");
  wallet = [];
  sum_w = pos 100;
  m_id = node_id;
  m_wallet = 100;
  m_block = codes "0";
  user_count = 4;
}

starts_1 : init openssl tt 1 ≡ some (started 1, codes "PK")
unfolding init
starts_1 = refl

starts_2 : init openssl tt 2 ≡ some (started 2, codes "PK")
unfolding init
starts_2 = refl

-- node 2 with the key of node 1
abbrev introduced : Algorand openssl
introduced = record (started 2) {
  publickeys = set (started 2).publickeys 1 (codes "PK");
  wallet = (codes "PK", pos 100) ∷ [];
  sum_w = pos 200;
}

learns : getkey openssl (codes "PK") (pos 1) (started 2) ≡ some introduced
unfolding getkey insert ◌+ℤ◌
learns = refl

abbrev drawn_package : DataPackage
drawn_package = record {
  seed = user.seed;
  hash = 160 ∷ 160 ∷ 162 ∷ [];
  proof = 0 ∷ 160 ∷ 160 ∷ 160 ∷ [];
  value = codes "A";
  j = pos 1;
  node_id = pos 1;
  pk = codes "PK";
  type = algorand_init;
}

draws :
    sortition fixed openssl 10 (pos 2) (pos 100) (pos 100) (codes "A") (started 1)
    ≡ some (
      record (started 1) { m_block = codes "A"; wallet = (codes "PK", pos 100) ∷ [] },
      drawn_package,
    )
unfolding sortition vrf_rsa_sign proof_to_output hash_fraction select algorand_sum sum_loop
    binary_distribution n_cr n_cr_loop get_key_len key_to_string insert ◌+ℤ◌ ◌-ℤ◌ text_eq
draws = refl

verify-exchange_example :
    verify fixed openssl 10 drawn_package (pos 2) (pos 100) introduced ≡ some (introduced, pos 1)
verify-exchange_example =
    verify-exchange fixed openssl openssl-RsaLaws 10 tt tt tt 1 2 (pos 2) (pos 100) (codes "A")
      (codes "PK") (codes "PK") (omega arith) (omega arith) refl starts_1 starts_2 learns draws

-- the last key but one of five nodes
abbrev almost : Node platform
almost = record node { tot_key = 3 }

abbrev client_key : KeyExchange ℕ
client_key = record {
  base = create_message platform config keyex;
  pkey = codes "PK";
  pkey_sz = 2;
  return_node = 4;
}

counts_key :
    process_key_exchange platform config client_key almost
    ≡ some (record almost { tot_key = 4; sent = (4, ready_packet) ∷ [] })
unfolding process_key_exchange
counts_key = refl

process_key_exchange-readies_example :
    (◌≡◌ {A = ℕ} 4 (almost.tot_key + 1))
    × (new : List (ℕ × Packet ℕ ℕ)) × ((4, ready_packet) ∷ [] ≡ new ++ [])
    × All (λ s. s.1 ≡ ready_packet) new
    × ((j : ℕ) → addressed j new ≡ (if leb 4 j && ltb j 5 then 1 else 0))
process_key_exchange-readies_example =
    process_key_exchange-readies platform config client_key almost (omega arith) counts_key

process_key_exchange-key_message_example :
    (n : Node platform) × (process_key_exchange platform config
        (key_message platform config node)
        node
      ≡ some n)
    × (lookup node.m_dp.pk n.g_algorand.wallet ≡ some (pos 100))
    × (n.g_algorand.sum_w ≡ node.g_algorand.sum_w +ℤ pos 100)
process_key_exchange-key_message_example =
    process_key_exchange-key_message platform config config node node 0 refl (omega arith)
      (omega arith)
