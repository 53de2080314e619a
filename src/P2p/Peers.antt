-- ===== src/P2p/Peers.antt =====
-- p2p/peerDenialEvaluator.go and p2p/statusHandlerAdapter.go: the peers that are denied, and the
-- addresses that are shown among the metrics.
use elrond_eth_bridge.Common.{Bool, true, false, List, [], ◌∷◌, ◌++◌, Result, ok}
use elrond_eth_bridge.Common.Bytes.{Bytes}
use elrond_eth_bridge.Common.Int.{ℤ}
use elrond_eth_bridge.Common.State.{State}

-- The caches of denied peers and of denied public keys.
pub record Caches (W : Type 0) : Type 0 where
  pub has_peer : Bytes → W → Bool × W
  pub has_public_key : Bytes → W → Bool × W
  pub upsert : Bytes → ℤ → W → Result (Unit {0}) × W

module _ {W : Type 0} (caches : Caches W) where
  -- `IsDenied`; the second cache is asked only when the first has not the peer.
  unfoldable pub is_denied : Bytes → State W Bool
  is_denied pid w =
      let (denied, after) = caches.has_peer pid w in
      elim denied [ true ↦ (true, after) | false ↦ caches.has_public_key pid after ]

  -- `UpsertPeerID`
  unfoldable pub upsert_peer_id : Bytes → ℤ → State W (Result (Unit {0}))
  upsert_peer_id pid duration = caches.upsert pid duration

-- The metrics "relayer P2P addresses" and "connected P2P addresses".
pub data AddressMetric : Type 0 where
  relayer_p2p_addresses connected_p2p_addresses : AddressMetric

-- `strings.Join(addresses, " ")`; a space is 32.
unfoldable pub join_addresses : List Bytes → Bytes
join_addresses [] = []
join_addresses (address ∷ []) = address
join_addresses (address ∷ next ∷ addresses) = address ++ (32 ∷ join_addresses (next ∷ addresses))

-- What the adapter works with: the messenger and the status handler that it embeds.
pub record Metered (W : Type 0) : Type 0 where
  pub addresses : W → List Bytes × W
  pub connected_addresses : W → List Bytes × W
  pub set_string_metric : AddressMetric → Bytes → W → W

-- `Execute`
unfoldable pub execute : {W : Type 0} → Metered W → State W (Result (Unit {0}))
execute on w =
    let (host, asked) = on.addresses w in
    let shown = on.set_string_metric relayer_p2p_addresses (join_addresses host) asked in
    let (connected, asked_again) = on.connected_addresses shown in
    (ok tt, on.set_string_metric connected_p2p_addresses (join_addresses connected) asked_again)
