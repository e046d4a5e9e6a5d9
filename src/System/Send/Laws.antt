-- ===== src/System/Send/Laws.antt =====
-- The destinations of a broadcast (system/txn.cpp: the loops that send).
use algorand.Prelude.{
  ℕ, zero, suc, ◌+◌, ◌≡◌, ◌&&◌, not, List, [], ◌∷◌, ◌++◌, map, ◌==◌, leb, ltb, if◌then◌else◌, arith,
}
use algorand.System.Node.{Platform, Config, Packet, Node}
use algorand.System.Send.{others_from, broadcast}

-- how many of the messages are for node i
abbrev pub addressed {ℓ} : {A : Type ℓ} → ℕ → List (ℕ × A) → ℕ
addressed i [] = 0
addressed i (s ∷ ss) = let rest = addressed i ss in if s.0 == i then suc rest else rest

pub addressed-append {ℓ} :
    {A : Type ℓ} (i : ℕ) (xs ys : List (ℕ × A))
    → addressed i (xs ++ ys) ≡ addressed i xs + addressed i ys
addressed-append i [] ys = ground arith
addressed-append i (x ∷ xs) ys = ground (arith, addressed-append i xs ys)

module _ (P : Platform) (c : Config) where
  pub addressed-others :
      {A : Type 0} (packet : A) (j left i : ℕ)
      → addressed j (map (λ k. (k, packet)) (others_from P c left i))
        ≡ (if leb i j && (ltb j (i + left) && not (j == c.g_node_id)) then 1 else 0)
  unfolding others_from
  addressed-others packet j zero i = ground arith
  addressed-others packet j (suc left) i = ground (arith, addressed-others packet j left (i + 1))

  -- A broadcast sends one more message to each server node but the sender, and no more to any other node.
  pub broadcast-addressed :
      (packet : Packet P.D.Double P.Request) (n : Node P) (j : ℕ)
      → addressed j (broadcast P c packet n).sent
        ≡ (if ltb j c.g_node_cnt && not (j == c.g_node_id) then 1 else 0) + addressed j n.sent
  unfolding broadcast
  broadcast-addressed packet n j =
      rw
        (
          addressed-append j (map (λ k. (k, packet)) (others_from P c c.g_node_cnt 0)) n.sent,
          addressed-others packet j c.g_node_cnt 0,
        )
        (ground arith)
