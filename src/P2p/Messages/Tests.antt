-- ===== src/P2p/Messages/Tests.antt =====
-- Two relayers on a small network, and the theorems on their messages at concrete inputs.
use elrond_eth_bridge.Common.{
  ℕ, ◌+◌, All, ◌≡◌, refl, true, ◌++◌, [], ◌∷◌, Result, ok, err, external, length, if◌then◌else◌,
  arith, nonce_too_low_in_received_message,
}
use elrond_eth_bridge.Common.Bytes.{Bytes, bytes_equal, bytes_equal_iff}
use elrond_eth_bridge.Common.Uint.{put_uint64}
use elrond_eth_bridge.Signatures.{SignedMessage, EthereumSignature, process_new_message}
use elrond_eth_bridge.P2p.{Message, Network, Broadcaster}
use elrond_eth_bridge.P2p.Nonces.{nonce_of, put_nonce, process_nonce}
use elrond_eth_bridge.P2p.Handler.{
  check_lengths, can_process_message, pre_process_message, create_message,
}
use elrond_eth_bridge.P2p.Messages.{
  notify_clients, get_ethereum_signature, process_sign_message, process_on_topic,
  process_verified_message, process_received_message,
}
use elrond_eth_bridge.P2p.Messages.Accepted.{Received, process_received_message-Received}
use elrond_eth_bridge.P2p.Messages.Replay.{nonces_by, IsIncreasing, accepted, accepted-IsIncreasing}
use elrond_eth_bridge.P2p.Messages.Delivered.{Counts, Passes, created-Counts}
use elrond_eth_bridge.P2p.Messages.Created.{IsLawful}

-- Keys and signatures of one byte; a signature is the length of what is signed.
abbrev marshal_fields : Bytes → Bytes → ℕ → Bytes → Result Bytes
marshal_fields (k ∷ []) (s ∷ []) n p = ok (k ∷ s ∷ n ∷ p)
marshal_fields _ _ n p = err (external 1)

abbrev marshal : SignedMessage → Result Bytes
marshal msg = marshal_fields msg.public_key_bytes msg.signature msg.nonce msg.payload

abbrev unmarshal : Bytes → Result SignedMessage
unmarshal (k ∷ s ∷ n ∷ p) =
    ok (record { payload = p; public_key_bytes = k ∷ []; signature = s ∷ []; nonce = n })
unmarshal _ = err (external 2)

abbrev unmarshal_eth : Bytes → Result EthereumSignature
unmarshal_eth (s ∷ h ∷ []) = ok (record { signature = s ∷ []; message_hash = h ∷ [] })
unmarshal_eth _ = err (external 3)

abbrev net : Network ℕ Bytes
net = record {
  marshal_message = marshal;
  unmarshal_message = unmarshal;
  marshal_signature = λ eth. ok (eth.signature ++ eth.message_hash);
  unmarshal_signature = unmarshal_eth;
  public_key_from_byte_array = ok;
  verify = λ k m sig. if bytes_equal (length m ∷ []) sig then ok tt else err (external 4);
  sign = λ m w. (ok (length m ∷ []), w);
  is_whitelisted = λ pk w. (true, w);
  verify_eth_signature = λ sig hash w. (ok tt, w);
  antiflood_can_process_message = λ message from w. (ok tt, w);
  antiflood_can_process_messages_on_topic = λ from topic n size seq w. (ok tt, w);
  blacklist_peer = λ peer w. w + 1;
  send_to_connected_peer = λ topic buff peer w. (ok tt, w + 1);
  broadcast = λ topic buff w. w + 1;
}

abbrev alice : Broadcaster ℕ
alice = record {
  counter = 41;
  public_key_bytes = 1 ∷ [];
  nonces = [];
  clients = [];
  join_topic_name = 0 ∷ [];
  sign_topic_name = 1 ∷ [];
  world = 0;
}

abbrev bob : Broadcaster ℕ
bob = record {
  counter = 7;
  public_key_bytes = 2 ∷ [];
  nonces = (1 ∷ [], 41) ∷ [];
  clients = record { signed_messages = []; eth_messages = [] } ∷ [];
  join_topic_name = 0 ∷ [];
  sign_topic_name = 1 ∷ [];
  world = 0;
}

-- What Alice makes of an Ethereum signature, and how it comes to Bob.
abbrev signed : SignedMessage
signed = record {
  payload = 50 ∷ 60 ∷ [];
  public_key_bytes = 1 ∷ [];
  signature = 10 ∷ [];
  nonce = 42;
}

abbrev message : Message
message = record {
  contents = 1 ∷ 10 ∷ 42 ∷ 50 ∷ 60 ∷ [];
  topic = 1 ∷ [];
  peer = 9 ∷ [];
  seq_no = [];
}

made : (create_message net (50 ∷ 60 ∷ []) alice).0 ≡ ok signed
unfolding create_message put_uint64
made = refl

received : (process_received_message net message (8 ∷ []) bob).1 ≡ record bob {
  nonces = (1 ∷ [], 42) ∷ [];
  clients =
      record {
        signed_messages = (1 ∷ 50 ∷ 60 ∷ [], signed) ∷ [];
        eth_messages = record { signature = 50 ∷ []; message_hash = 60 ∷ [] } ∷ [];
      }
      ∷ [];
}
unfolding process_received_message pre_process_message check_lengths process_verified_message
    can_process_message process_on_topic process_sign_message get_ethereum_signature notify_clients
    process_nonce nonce_of put_nonce bytes_equal process_new_message put_uint64
received = refl

replayed :
    (process_received_message net message (8 ∷ []) (record bob { nonces = (1 ∷ [], 42) ∷ [] })).0
    ≡ err nonce_too_low_in_received_message
unfolding process_received_message pre_process_message check_lengths process_verified_message
    process_nonce nonce_of bytes_equal put_uint64
replayed = refl

process_received_message-Received_example :
    Received net bob message
      (8 ∷ [])
      (ok signed)
      (process_received_message net message (8 ∷ []) bob).0
      (process_received_message net message (8 ∷ []) bob).1
process_received_message-Received_example =
    process_received_message-Received net message (8 ∷ []) bob

accepted-IsIncreasing_example :
    IsIncreasing
      (nonce_of (1 ∷ []) bob.nonces)
      (nonces_by (1 ∷ []) (accepted net ((message, 8 ∷ []) ∷ (message, 7 ∷ []) ∷ []) bob))
accepted-IsIncreasing_example =
    accepted-IsIncreasing net (1 ∷ []) ((message, 8 ∷ []) ∷ (message, 7 ∷ []) ∷ []) bob

read_fields :
    (key sig : Bytes) (n : ℕ) (p buff : Bytes)
    → marshal_fields key sig n p ≡ ok buff
    → unmarshal buff
      ≡ ok (record { payload = p; public_key_bytes = key; signature = sig; nonce = n })
read_fields [] sig n p buff h = ground arith
read_fields (k ∷ []) [] n p buff h = ground arith
read_fields (k ∷ []) (s ∷ []) n p buff h = ground arith
read_fields (k ∷ []) (s ∷ s' ∷ t) n p buff h = ground arith
read_fields (k ∷ k' ∷ t) sig n p buff h = ground arith

net-IsLawful : IsLawful net (1 ∷ [])
net-IsLawful = record {
  read_back = λ msg buff. read_fields msg.public_key_bytes msg.signature msg.nonce msg.payload buff;
  signs =
      λ contents w. ground (arith, bytes_equal_iff (length contents ∷ []) (length contents ∷ []));
}

passes :
    Passes net bob message (8 ∷ []) signed (record { signature = 50 ∷ []; message_hash = 60 ∷ [] })
passes = record {
  on_topic = refl;
  other_topic = λ e. grind (arith, e);
  let_pass = refl;
  let_pass_on_topic = refl;
  carries = (refl, refl);
}

created-Counts_example :
    let (result, after) = process_received_message net message (8 ∷ []) bob in
    (result ≡ ok tt)
    × All (Counts (record { signature = 50 ∷ []; message_hash = 60 ∷ [] })) after.clients
unfolding nonce_of bytes_equal
created-Counts_example =
    created-Counts net (50 ∷ 60 ∷ []) (1 ∷ 10 ∷ 42 ∷ 50 ∷ 60 ∷ []) alice bob signed message (8 ∷ [])
      (record { signature = 50 ∷ []; message_hash = 60 ∷ [] }) net-IsLawful made refl refl
      (omega arith, omega arith, omega arith) (omega arith) (omega arith) refl passes
