-- ===== src/P2p/Messages.antt =====
-- p2p/broadcaster.go: the messages between relayers. Log lines are left out.
pub mod Accepted
pub mod Replay
pub mod Created
pub mod Delivered
mod Tests
use elrond_eth_bridge.Common.{
  ℕ, Bool, true, false, Option, none, some, List, [], ◌∷◌, ◌++◌, map, Result, ok, err,
  peer_not_whitelisted, if◌then◌else◌,
}
use elrond_eth_bridge.Common.Bytes.{Bytes, bytes_equal}
use elrond_eth_bridge.Common.State.{State, give, ◌>>=◌, ◌>>◌, or_fail}
use elrond_eth_bridge.Signatures.{
  SignedMessage, EthereumSignature, SignaturesHolder, new_signatures_holder, unique_id, put_message,
  process_new_message, all_stored_signatures,
}
use elrond_eth_bridge.P2p.{Message, Network, Broadcaster}
use elrond_eth_bridge.P2p.Nonces.{process_nonce}
use elrond_eth_bridge.P2p.Handler.{
  ask, tell, can_process_message, pre_process_message, create_message,
}

-- "_join", "_sign" and "join topic"
abbrev pub join_topic_suffix : Bytes
join_topic_suffix = 95 ∷ 106 ∷ 111 ∷ 105 ∷ 110 ∷ []

abbrev pub sign_topic_suffix : Bytes
sign_topic_suffix = 95 ∷ 115 ∷ 105 ∷ 103 ∷ 110 ∷ []

abbrev pub join_topic_message : Bytes
join_topic_message = 106 ∷ 111 ∷ 105 ∷ 110 ∷ 32 ∷ 116 ∷ 111 ∷ 112 ∷ 105 ∷ 99 ∷ []

-- `NewBroadcaster`, from the start of the counter and the bytes of the public key.
unfoldable pub new_broadcaster : {W : Type 0} → Bytes → ℕ → Bytes → W → Broadcaster W
new_broadcaster name counter public_key_bytes world = record {
  counter = counter;
  public_key_bytes = public_key_bytes;
  nonces = [];
  clients = [];
  join_topic_name = name ++ join_topic_suffix;
  sign_topic_name = name ++ sign_topic_suffix;
  world = world;
}

-- `retrieveUniqueMessages`: the messages of all clients, one for each unique ID.
put_all : List SignedMessage → List (Bytes × SignedMessage) → List (Bytes × SignedMessage)
put_all [] messages = messages
put_all (msg ∷ msgs) messages = put_all msgs (put_message (unique_id msg) msg messages)

unfoldable pub retrieve_unique_messages :
    List SignaturesHolder → List (Bytes × SignedMessage) → List (Bytes × SignedMessage)
unfolding put_all
retrieve_unique_messages [] messages = messages
retrieve_unique_messages (client ∷ clients) messages =
    retrieve_unique_messages clients (put_all (all_stored_signatures client) messages)

-- The payload of `BroadcastSignature`, which is nil where it cannot be made.
payload_or_nil : Result Bytes → Bytes
payload_or_nil (ok payload) = payload
payload_or_nil (err _) = []

module _ {W K : Type 0} (net : Network W K) where
  -- `AddBroadcastClient`, of a client that is not nil.
  unfoldable pub add_broadcast_client : SignaturesHolder → State (Broadcaster W) (Unit {0})
  add_broadcast_client client s = (tt, record s { clients = s.clients ++ client ∷ [] })

  -- `notifyClients`
  unfoldable pub notify_clients :
      SignedMessage → EthereumSignature → State (Broadcaster W) (Unit {0})
  notify_clients msg eth_msg s =
      (tt, record s { clients = map (process_new_message (some msg) (some eth_msg)) s.clients })

  -- `getEthereumSignature`
  unfoldable pub get_ethereum_signature :
      SignedMessage → State (Broadcaster W) (Result EthereumSignature)
  get_ethereum_signature msg = or_fail (net.unmarshal_signature msg.payload) λ eth_signature. do
    r ← ask net (net.verify_eth_signature eth_signature.signature eth_signature.message_hash)
    or_fail r λ _. give (ok eth_signature)

  -- `processSignMessage`
  unfoldable pub process_sign_message : SignedMessage → State (Broadcaster W) (Unit {0})
  process_sign_message msg = get_ethereum_signature msg >>= λ r. elim r [
    | err _ ↦ give tt
    | ok eth_signature ↦ notify_clients msg eth_signature
  ]

  -- `sendSignedMessageToPeer`
  unfoldable pub send_signed_message_to_peer :
      SignedMessage → Bytes → State (Broadcaster W) (Result (Unit {0}))
  send_signed_message_to_peer msg peer_id =
      or_fail (net.marshal_message msg)
        λ buff s. ask net (net.send_to_connected_peer s.sign_topic_name buff peer_id) s

  -- `broadcastCurrentSignatures`: a message that cannot be sent does not stop the others.
  unfoldable pub send_all : List (Bytes × SignedMessage) → Bytes → State (Broadcaster W) (Unit {0})
  send_all [] peer_id = give tt
  send_all ((_, msg) ∷ messages) peer_id =
      send_signed_message_to_peer msg peer_id >> send_all messages peer_id

  unfoldable pub broadcast_current_signatures : Bytes → State (Broadcaster W) (Unit {0})
  broadcast_current_signatures peer_id s =
      send_all (retrieve_unique_messages s.clients []) peer_id s

  -- The `switch` on the topic in `ProcessReceivedMessage`; `processJoinMessage` is its first case.
  unfoldable pub process_on_topic : Message → SignedMessage → State (Broadcaster W) (Unit {0})
  process_on_topic message msg s = elim (bytes_equal message.topic s.join_topic_name) [
    | true ↦ broadcast_current_signatures message.peer s
    | false ↦ elim (bytes_equal message.topic s.sign_topic_name) [
      | true ↦ process_sign_message msg s
      | false ↦ (tt, s)
    ]
  ]

  -- `b.processNonce(msg)`
  abbrev check_nonce : SignedMessage → State (Broadcaster W) (Result (Unit {0}))
  check_nonce msg s =
      ((process_nonce msg s.nonces).0, record s { nonces = (process_nonce msg s.nonces).1 })

  -- `ProcessReceivedMessage` from the white list on, for a message that was verified.
  unfoldable pub process_verified_message :
      Message → Bytes → SignedMessage → State (Broadcaster W) (Result (Unit {0}))
  process_verified_message message from_connected_peer msg = do
    whitelisted ← ask net (net.is_whitelisted msg.public_key_bytes)
    elim whitelisted [
      | false ↦ give (err peer_not_whitelisted)
      | true ↦ check_nonce msg >>= λ r. or_fail r λ _. do
        r ← can_process_message net message from_connected_peer
        or_fail r λ _. process_on_topic message msg >> give (ok tt)
    ]

  -- `ProcessReceivedMessage`
  unfoldable pub process_received_message :
      Message → Bytes → State (Broadcaster W) (Result (Unit {0}))
  process_received_message message from_connected_peer = do
    r ← pre_process_message net message from_connected_peer
    or_fail r λ msg. process_verified_message message from_connected_peer msg

  -- `broadcastMessage`
  unfoldable pub broadcast_message : Bytes → Bytes → State (Broadcaster W) (Result (Unit {0}))
  broadcast_message payload topic = create_message net payload >>= λ r. or_fail r λ msg.
      or_fail (net.marshal_message msg) λ buff. tell net (net.broadcast topic buff) >> give (ok tt)

  -- `BroadcastSignature`: where the payload cannot be made, it goes on with an empty one.
  unfoldable pub broadcast_signature : Bytes → Bytes → State (Broadcaster W) (Unit {0})
  unfolding payload_or_nil
  broadcast_signature signature message_hash s = (
    tt,
    (broadcast_message
        (payload_or_nil
          (net.marshal_signature (record { signature = signature; message_hash = message_hash })))
        s.sign_topic_name s).1,
  )

  -- `BroadcastJoinTopic`
  unfoldable pub broadcast_join_topic : State (Broadcaster W) (Unit {0})
  broadcast_join_topic s = (tt, (broadcast_message join_topic_message s.join_topic_name s).1)
