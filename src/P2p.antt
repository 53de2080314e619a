-- ===== src/P2p.antt =====
-- p2p: what a relayer keeps for the messages of the other relayers, and the libraries it works with.
-- A method holds its locks for the steps that need them, and is one step of the model.
pub mod Nonces
pub mod Handler
pub mod Messages
pub mod Create
pub mod Peers
use elrond_eth_bridge.Common.{ℕ, Bool, List, Result}
use elrond_eth_bridge.Common.Bytes.{Bytes}
use elrond_eth_bridge.Signatures.{SignedMessage, EthereumSignature, SignaturesHolder}

-- `p2p.MessageP2P`, a message of the network; `contents` is its `Data`. The messenger passes no nil message.
pub record Message : Type 0 where
  pub contents : Bytes
  pub topic : Bytes
  pub peer : Bytes
  pub seq_no : Bytes

-- The code outside the package that a broadcaster calls: the marshalizer, the key generator, the
-- signer with the relayer's private key, the role provider, the signature processor, the antiflood
-- handler and the messenger. `K` is the type of public keys. What has a state of its own is a
-- function of the world.
pub record Network (W K : Type 0) : Type 0 where
  pub marshal_message : SignedMessage → Result Bytes
  pub unmarshal_message : Bytes → Result SignedMessage
  pub marshal_signature : EthereumSignature → Result Bytes
  pub unmarshal_signature : Bytes → Result EthereumSignature
  pub public_key_from_byte_array : Bytes → Result K
  pub verify : K → Bytes → Bytes → Result (Unit {0})
  pub sign : Bytes → W → Result Bytes × W
  pub is_whitelisted : Bytes → W → Bool × W
  pub verify_eth_signature : Bytes → Bytes → W → Result (Unit {0}) × W
  pub antiflood_can_process_message : Message → Bytes → W → Result (Unit {0}) × W
  pub antiflood_can_process_messages_on_topic :
      Bytes → Bytes → ℕ → ℕ → Bytes → W → Result (Unit {0}) × W
  pub blacklist_peer : Bytes → W → W
  pub send_to_connected_peer : Bytes → Bytes → Bytes → W → Result (Unit {0}) × W
  pub broadcast : Bytes → Bytes → W → W

-- `broadcaster`, with the fields of the `relayerMessageHandler` and the `noncesOfPublicKeys` that it
-- embeds, and the world. `counter` is a `uint64`. The clients are signature holders: the factory
-- adds no others.
pub record Broadcaster (W : Type 0) : Type 0 where
  pub counter : ℕ
  pub public_key_bytes : Bytes
  pub nonces : List (Bytes × ℕ)
  pub clients : List SignaturesHolder
  pub join_topic_name : Bytes
  pub sign_topic_name : Bytes
  pub world : W
