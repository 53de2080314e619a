-- ===== src/Ethereum/Transfer/Quorum.antt =====
-- IsQuorumReached of clients/ethereum/client.go, and the test on the signatures in ExecuteTransfer.
use elrond_eth_bridge.Common.{ℕ, ◌^◌, ◌<◌, ◌≤◌, ◌≡◌, ◌↔◌, true, some, ok, length, take, arith}
use elrond_eth_bridge.Common.Bytes.{Bytes}
use elrond_eth_bridge.Common.Int.{pos}
use elrond_eth_bridge.Common.Panic.{Returns}
use elrond_eth_bridge.Signatures.{signatures}
use elrond_eth_bridge.Ethereum.{Chain, Client}
use elrond_eth_bridge.Ethereum.Transfer.{reduce_signatures, is_quorum_reached}

module _ {W : Type 0} (chain : Chain W) where
  -- For a quorum that fits an `int64`, `IsQuorumReached` answers yes exactly when the quorum is not
  -- 0 and that many signatures are held, which is when `ExecuteTransfer` with this quorum finds its
  -- signatures. It asks for nothing but the quorum: of the client, only the world changes, as this
  -- question leaves it.
  pub is_quorum_reached_iff :
      (msg_hash : Bytes) (q : ℕ) (s : Client W)
      → (chain.quorum s.world).0 ≡ ok q
      → q < 2 ^ 63
      → let held = signatures msg_hash s.signature_holder in
        Returns
          (λ r t.
            ((r ≡ ok true) ↔ ((1 ≤ q) × (q ≤ length held)))
            × ((r ≡ ok true)
                ↔ ((1 ≤ q) × (reduce_signatures held (pos q) ≡ some (ok (take q held)))))
            × (t ≡ record s { world = (chain.quorum s.world).1 }))
          (is_quorum_reached chain msg_hash s)
  unfolding is_quorum_reached reduce_signatures
  is_quorum_reached_iff msg_hash q s asked small = grind (arith, asked)
