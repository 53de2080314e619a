-- ===== src/P2p/Messages/Delivered.antt =====
-- From one relayer to another (p2p/broadcaster.go): a signature that one relayer broadcasts counts
-- for the other.
use mathlib.Core.Path.{subst, sym}
use elrond_eth_bridge.Common.{
  ◌+◌, ◌^◌, ◌<◌, ◌≤◌, ◌≡◌, ◌≢◌, refl, inl, inr, true, some, List, [], ◌∷◌, ◌++◌, map, ok, length,
  All, Elem, arith,
}
use elrond_eth_bridge.Common.Bytes.{Bytes, bytes_equal_iff}
use elrond_eth_bridge.Signatures.{
  SignedMessage, EthereumSignature, SignaturesHolder, process_new_message, signatures,
}
use elrond_eth_bridge.Signatures.Quorum.{IsSigned, signatures_exact}
use elrond_eth_bridge.P2p.{Message, Network, Broadcaster}
use elrond_eth_bridge.P2p.Nonces.{nonce_of, put_nonce, process_nonce}
use elrond_eth_bridge.P2p.Handler.{
  absolut_max_slice_size, check_lengths, can_process_message, pre_process_message, create_message,
}
use elrond_eth_bridge.P2p.Messages.{
  notify_clients, get_ethereum_signature, process_sign_message, process_on_topic,
  process_verified_message, process_received_message,
}
use elrond_eth_bridge.P2p.Messages.Accepted.{IsVerified, IsFresh, Carries, world_checked}
use elrond_eth_bridge.P2p.Messages.Created.{IsLawful, created-IsFresh}

-- The holder counts the signature for the hash.
abbrev pub Counts : EthereumSignature → SignaturesHolder → Type 0
Counts eth sh = Elem eth.signature (signatures eth.message_hash sh)

IsSigned-last :
    (eth : EthereumSignature) (messages : List EthereumSignature)
    → IsSigned eth.message_hash eth.signature (messages ++ eth ∷ [])
IsSigned-last eth [] = inl (refl, refl)
IsSigned-last eth (m ∷ messages) = inr (IsSigned-last eth messages)

process_new_message-Counts :
    (msg : SignedMessage) (eth : EthereumSignature) (sh : SignaturesHolder)
    → Counts eth (process_new_message (some msg) (some eth) sh)
unfolding process_new_message
process_new_message-Counts msg eth sh =
    ((signatures_exact eth.message_hash (process_new_message (some msg) (some eth) sh)).1
        eth.signature).1
      (IsSigned-last eth sh.eth_messages)

All-Counts :
    (msg : SignedMessage) (eth : EthereumSignature) (clients : List SignaturesHolder)
    → All (Counts eth) (map (process_new_message (some msg) (some eth)) clients)
All-Counts msg eth [] = tt
All-Counts msg eth (sh ∷ clients) =
    (process_new_message-Counts msg eth sh, All-Counts msg eth clients)

module _ {W K : Type 0} (net : Network W K) where
  -- The message is on the topic for signatures of the receiver, the antiflood handler lets it pass,
  -- and its payload is the signature, which the signature processor accepts.
  pub record Passes (t : Broadcaster W) (message : Message) (from : Bytes) (msg : SignedMessage)
      (eth : EthereumSignature) : Type 0 where
    pub on_topic : message.topic ≡ t.sign_topic_name
    pub other_topic : t.join_topic_name ≢ t.sign_topic_name
    pub let_pass :
        (net.antiflood_can_process_message message from
          (net.is_whitelisted msg.public_key_bytes t.world).1).0
        ≡ ok tt
    pub let_pass_on_topic :
        (net.antiflood_can_process_messages_on_topic from message.topic 1
          (length message.contents)
          message.seq_no
          (net.antiflood_can_process_message message from
            (net.is_whitelisted msg.public_key_bytes t.world).1).1).0
        ≡ ok tt
    pub carries : Carries net msg eth (world_checked net t message from msg)

  pre_process_verified :
      (message : Message) (from : Bytes) (t : Broadcaster W) (msg : SignedMessage)
      → IsVerified net message msg
      → pre_process_message net message from t ≡ (ok msg, t)
  unfolding pre_process_message check_lengths
  pre_process_verified message from t msg h = ground (arith, h)

  on_sign_topic :
      (message : Message) (msg : SignedMessage) (eth : EthereumSignature) (t : Broadcaster W)
      → message.topic ≡ t.sign_topic_name
      → t.join_topic_name ≢ t.sign_topic_name
      → Carries net msg eth t.world
      → (process_on_topic net message msg t).1.clients
        ≡ map (process_new_message (some msg) (some eth)) t.clients
  unfolding process_on_topic process_sign_message get_ethereum_signature notify_clients
  on_sign_topic message msg eth t on_topic other_topic carries = ground (
    arith,
    on_topic,
    other_topic,
    carries,
    bytes_equal_iff message.topic t.join_topic_name,
    bytes_equal_iff message.topic t.sign_topic_name,
  )

  fresh_accepted :
      (message : Message) (from : Bytes) (t : Broadcaster W) (msg : SignedMessage)
      (eth : EthereumSignature)
      → IsFresh net t message msg
      → Passes t message from msg eth
      → let (result, after) = process_verified_message net message from msg t in
        (result ≡ ok tt)
        × (after.clients ≡ map (process_new_message (some msg) (some eth)) t.clients)
  unfolding process_verified_message can_process_message process_nonce
  fresh_accepted message from t msg eth fresh h = ground (
    arith,
    fresh,
    h,
    on_sign_topic message msg eth
        (record t {
          nonces = put_nonce msg.public_key_bytes msg.nonce t.nonces;
          world = world_checked net t message from msg;
        })
        h.on_topic h.other_topic h.carries,
  )

  -- A signed message that one relayer creates for an Ethereum signature, as it does in
  -- `broadcastMessage`, and that comes to another relayer as it was marshalled, is accepted there, and
  -- every signature holder of the other relayer then counts the signature for its hash. The sender's
  -- key is on the white list, its counter does not wrap and is not below the nonce that the receiver
  -- knows of it, the fields are within the bound, and the message passes the antiflood handler and the
  -- signature processor.
  pub created-Counts :
      (payload buff : Bytes) (s t : Broadcaster W) (msg : SignedMessage) (message : Message)
      (from : Bytes) (eth : EthereumSignature)
      → IsLawful net s.public_key_bytes
      → (create_message net payload s).0 ≡ ok msg
      → net.marshal_message msg ≡ ok buff
      → message.contents ≡ buff
      → (length msg.public_key_bytes ≤ absolut_max_slice_size)
        × (length msg.signature ≤ absolut_max_slice_size)
        × (length payload ≤ absolut_max_slice_size)
      → s.counter + 1 < 2 ^ 64
      → nonce_of s.public_key_bytes t.nonces ≤ s.counter
      → (net.is_whitelisted s.public_key_bytes t.world).0 ≡ true
      → Passes t message from msg eth
      → let (result, after) = process_received_message net message from t in
        (result ≡ ok tt) × All (Counts eth) after.clients
  unfolding process_received_message
  created-Counts payload buff s t msg message from eth law made sent same bounds room known listed
        passes =
      let fresh =
        created-IsFresh net payload buff s t msg message law made sent same bounds room known
          listed in
      let (accepted, clients) = fresh_accepted message from t msg eth fresh passes in
      rw (pre_process_verified message from t msg fresh.is_verified)
        (accepted, subst (All (Counts eth)) (sym clients) (All-Counts msg eth t.clients))
