-- ===== src/P2p/Messages/Accepted.antt =====
-- Which received messages change what a relayer keeps (ProcessReceivedMessage of p2p/broadcaster.go).
use elrond_eth_bridge.Common.{
  Error, ◌≢◌, ℕ, ◌<◌, ◌≤◌, ◌≡◌, ◌⊎◌, ◌++◌, true, some, List, [], ◌∷◌, map, Result, ok, err, length,
  arith,
}
use elrond_eth_bridge.Common.Bytes.{Bytes, bytes_equal_iff}
use elrond_eth_bridge.Common.State.{or_fail}
use elrond_eth_bridge.Common.Uint.{put_uint64}
use elrond_eth_bridge.Signatures.{
  SignedMessage, EthereumSignature, SignaturesHolder, process_new_message,
}
use elrond_eth_bridge.P2p.{Message, Network, Broadcaster}
use elrond_eth_bridge.P2p.Nonces.{nonce_of, put_nonce, process_nonce}
use elrond_eth_bridge.P2p.Handler.{
  absolut_max_slice_size, check_lengths, can_process_message, pre_process_message,
}
use elrond_eth_bridge.P2p.Messages.{
  notify_clients, get_ethereum_signature, process_sign_message, send_signed_message_to_peer,
  send_all, retrieve_unique_messages, broadcast_current_signatures, process_on_topic,
  process_verified_message, process_received_message,
}

-- What a broadcaster keeps from one state to another, with its nonces and clients as given.
pub record Keeps {W : Type 0} (nonces : List (Bytes × ℕ)) (clients : List SignaturesHolder)
    (s t : Broadcaster W) : Type 0 where
  pub nonces_are : t.nonces ≡ nonces
  pub clients_are : t.clients ≡ clients
  pub join_kept : t.join_topic_name ≡ s.join_topic_name
  pub sign_kept : t.sign_topic_name ≡ s.sign_topic_name

module _ {W K : Type 0} (net : Network W K) where
  -- The signature of the message, over its payload and its nonce, is one of the public key.
  abbrev pub VerifiesBy : SignedMessage → Result K → Type 0
  VerifiesBy msg (ok k) = net.verify k (msg.payload ++ put_uint64 msg.nonce) msg.signature ≡ ok tt
  VerifiesBy msg (err _) = ⊥

  -- A message that can be read, of a bounded size, signed by its own public key.
  pub record IsVerified (message : Message) (msg : SignedMessage) : Type 0 where
    pub is_read : net.unmarshal_message message.contents ≡ ok msg
    pub key_bounded : length msg.public_key_bytes ≤ absolut_max_slice_size
    pub signature_bounded : length msg.signature ≤ absolut_max_slice_size
    pub payload_bounded : length msg.payload ≤ absolut_max_slice_size
    pub verified : VerifiesBy msg (net.public_key_from_byte_array msg.public_key_bytes)

  -- A verified message of a relayer on the white list, newer than all it sent before.
  pub record IsFresh (s : Broadcaster W) (message : Message) (msg : SignedMessage) : Type 0 where
    pub is_verified : IsVerified message msg
    pub whitelisted : (net.is_whitelisted msg.public_key_bytes s.world).0 ≡ true
    pub newer : nonce_of msg.public_key_bytes s.nonces < msg.nonce

  -- The payload of a message read as an Ethereum signature, which the signature processor accepts.
  abbrev pub Carries : SignedMessage → EthereumSignature → W → Type 0
  Carries msg eth w =
      (net.unmarshal_signature msg.payload ≡ ok eth)
      × ((net.verify_eth_signature eth.signature eth.message_hash w).0 ≡ ok tt)

  send_all-Keeps :
      (messages : List (Bytes × SignedMessage)) (peer_id : Bytes) (s : Broadcaster W)
      → Keeps s.nonces s.clients s (send_all net messages peer_id s).1
  unfolding send_all send_signed_message_to_peer
  send_all-Keeps [] peer_id s = ground arith
  send_all-Keeps ((_, msg) ∷ messages) peer_id s =
      ground
        (arith, send_all-Keeps messages peer_id (send_signed_message_to_peer net msg peer_id s).1)

  -- What `preProcessMessage` leaves on either branch.
  abbrev Checked : Broadcaster W → Message → Result SignedMessage → Broadcaster W → Type 0
  Checked s message (ok msg) t = IsVerified message msg × (t ≡ s)
  Checked s message (err e) t = Keeps s.nonces s.clients s t

  pre_process-Checked :
      (message : Message) (from : Bytes) (s : Broadcaster W)
      → Checked s message
          (pre_process_message net message from s).0
          (pre_process_message net message from s).1
  unfolding pre_process_message check_lengths
  pre_process-Checked message from s = ground arith

  -- What `processSignMessage` leaves, by what the payload is read as.
  abbrev Notified :
      SignedMessage → Broadcaster W → Result EthereumSignature → Broadcaster W → Type 0
  Notified msg s (err _) t = Keeps s.nonces s.clients s t
  Notified msg s (ok eth) t =
      Keeps s.nonces s.clients s t
      ⊎ (Carries msg eth s.world
          × Keeps s.nonces (map (process_new_message (some msg) (some eth)) s.clients) s t)

  process_sign-Notified :
      (msg : SignedMessage) (s : Broadcaster W)
      → Notified msg s (net.unmarshal_signature msg.payload) (process_sign_message net msg s).1
  unfolding process_sign_message get_ethereum_signature notify_clients
  process_sign-Notified msg s = ground arith

  -- The world when an accepted message is processed: after the white list and the antiflood handler.
  abbrev pub world_checked : Broadcaster W → Message → Bytes → SignedMessage → W
  world_checked s message from msg =
      (net.antiflood_can_process_messages_on_topic from message.topic 1 (length message.contents)
        message.seq_no
        (net.antiflood_can_process_message message from
          (net.is_whitelisted msg.public_key_bytes s.world).1).1).1

  -- What a message that carries an Ethereum signature leaves: every client gets both.
  abbrev pub Delivers :
      Broadcaster W
      → Message
      → Bytes
      → SignedMessage
      → Result EthereumSignature
      → Broadcaster W
      → Type 0
  Delivers s message from msg (err _) t = ⊥
  Delivers s message from msg (ok eth) t =
      Carries msg eth (world_checked s message from msg)
      × Keeps (put_nonce msg.public_key_bytes msg.nonce s.nonces)
          (map (process_new_message (some msg) (some eth)) s.clients) s t

  -- What `ProcessReceivedMessage` leaves, by what the message is read as: a refused message changes
  -- nothing, but for its nonce where only the antiflood handler refuses it; a fresh message sets
  -- the nonce of its key; a fresh message on the topic for signatures that carries one reaches
  -- the clients.
  abbrev pub Received :
      Broadcaster W
      → Message
      → Bytes
      → Result SignedMessage
      → Result (Unit {0})
      → Broadcaster W
      → Type 0
  Received s message from (err _) result t = (result ≢ ok tt) × Keeps s.nonces s.clients s t
  Received s message from (ok msg) result t =
      ((result ≢ ok tt) × Keeps s.nonces s.clients s t)
      ⊎ (IsFresh s message msg
          × (Keeps (put_nonce msg.public_key_bytes msg.nonce s.nonces) s.clients s t
              ⊎ ((result ≡ ok tt)
                  × (message.topic ≡ s.sign_topic_name)
                  × Delivers s message from msg (net.unmarshal_signature msg.payload) t)))

  -- The rest of `ProcessReceivedMessage` for a message that was verified.
  on_topic-Keeps :
      (message : Message) (msg : SignedMessage) (s : Broadcaster W)
      → Keeps s.nonces s.clients s (process_on_topic net message msg s).1
        ⊎ ((message.topic ≡ s.sign_topic_name)
            × Notified msg s
                (net.unmarshal_signature msg.payload)
                (process_on_topic net message msg s).1)
  unfolding process_on_topic broadcast_current_signatures
  on_topic-Keeps message msg s = ground (
    arith,
    bytes_equal_iff message.topic s.sign_topic_name,
    send_all-Keeps (retrieve_unique_messages s.clients []) message.peer s,
    process_sign-Notified msg s,
  )

  verified-Received :
      (message : Message) (from : Bytes) (msg : SignedMessage) (s : Broadcaster W)
      → IsVerified message msg
      → Received s message from
          (ok msg)
          (process_verified_message net message from msg s).0
          (process_verified_message net message from msg s).1
  unfolding process_verified_message can_process_message process_nonce
  verified-Received message from msg s h = ground (
    arith,
    on_topic-Keeps message msg (record s {
      nonces = put_nonce msg.public_key_bytes msg.nonce s.nonces;
      world = world_checked s message from msg;
    }),
  )

  refused-Received :
      (message : Message) (from : Bytes) (s t : Broadcaster W) (e : Error)
      (r : Result SignedMessage)
      → Keeps s.nonces s.clients s t
      → Received s message from r (err e) t
  refused-Received message from s t e (ok msg) h = ground arith
  refused-Received message from s t e (err _) h = ground arith

  Checked-Received :
      (message : Message) (from : Bytes) (s : Broadcaster W) (r : Result SignedMessage)
      (t : Broadcaster W)
      → Checked s message r t
      → let after = or_fail r (process_verified_message net message from) t in
        Received s message from (net.unmarshal_message message.contents) after.0 after.1
  Checked-Received message from s (err e) t h =
      refused-Received message from s t e (net.unmarshal_message message.contents) h
  Checked-Received message from s (ok msg) t (h, same) =
      rw h.is_read (rw same (verified-Received message from msg s h))

  -- Every message that a relayer receives leaves one of these outcomes: it is refused; it is fresh
  -- and only sets the nonce of its public key; or it is fresh, it is on the topic for signatures,
  -- its payload is an Ethereum signature that the signature processor accepts, and each client gets
  -- the message and the signature. Fresh is a message that can be read, with fields of at most 1024
  -- bytes, signed by its public key, which is on the white list, with a nonce above the last one.
  pub process_received_message-Received :
      (message : Message) (from : Bytes) (s : Broadcaster W)
      → Received s message from
          (net.unmarshal_message message.contents)
          (process_received_message net message from s).0
          (process_received_message net message from s).1
  unfolding process_received_message
  process_received_message-Received message from s =
      Checked-Received message from s (pre_process_message net message from s).0
        (pre_process_message net message from s).1 (pre_process-Checked message from s)
