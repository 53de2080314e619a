-- ===== src/P2p/Create.antt =====
-- The constructor of p2p/broadcaster.go, its registration on its topics, and the sorted public keys
-- of p2p/noncesOfPublicKeys.go.
use elrond_eth_bridge.Common.{ℕ, List, [], ◌∷◌, ◌++◌, Result, ok, err, u64}
use elrond_eth_bridge.Common.Bytes.{Bytes}
use elrond_eth_bridge.Common.State.{State}
use elrond_eth_bridge.Relayers.{insert}
use elrond_eth_bridge.P2p.{Broadcaster}

-- "_join" and "_sign"
abbrev join_topic_suffix : Bytes
join_topic_suffix = 95 ∷ 106 ∷ 111 ∷ 105 ∷ 110 ∷ []

abbrev sign_topic_suffix : Bytes
sign_topic_suffix = 95 ∷ 115 ∷ 105 ∷ 103 ∷ 110 ∷ []

-- `NewBroadcaster`, without its nil checks, by the name, the time in nanoseconds, which is not before
-- 1970, and the bytes of the public key.
unfoldable pub new_broadcaster :
    {W : Type 0} → Bytes → ℕ → Result Bytes → W → Result (Broadcaster W)
new_broadcaster name unix_nano (err e) world = err e
new_broadcaster name unix_nano (ok public_key_bytes) world = ok (record {
  counter = u64 unix_nano;
  public_key_bytes = public_key_bytes;
  nonces = [];
  clients = [];
  join_topic_name = name ++ join_topic_suffix;
  sign_topic_name = name ++ sign_topic_suffix;
  world = world;
})

-- The messenger's functions that a registration calls.
pub record Messenger (W : Type 0) : Type 0 where
  pub create_topic : Bytes → W → Result (Unit {0}) × W
  pub register_message_processor : Bytes → W → Result (Unit {0}) × W

module _ {W : Type 0} (messenger : Messenger W) where
  -- The loop of `RegisterOnTopics`, which ends at the first error.
  unfoldable pub register_each : List Bytes → State W (Result (Unit {0}))
  register_each [] w = (ok tt, w)
  register_each (topic ∷ topics) w =
      let (result, after) = messenger.create_topic topic w in
      let (registered, then_after) = messenger.register_message_processor topic after in
      let rest = register_each topics then_after in
      elim result [
        | err e ↦ (err e, after)
        | ok _ ↦ elim registered [ err e ↦ (err e, then_after) | ok _ ↦ rest ]
      ]

  -- `RegisterOnTopics`
  unfoldable pub register_on_topics : State (Broadcaster W) (Result (Unit {0}))
  register_on_topics b =
      let (result, after) = register_each (b.join_topic_name ∷ b.sign_topic_name ∷ []) b.world in
      (result, record b { world = after })

-- `SortedPublicKeys`, by the bytes of the keys.
unfoldable pub sorted_keys : List (Bytes × ℕ) → List Bytes
sorted_keys [] = []
sorted_keys ((pk, nonce) ∷ nonces) = insert pk (sorted_keys nonces)
