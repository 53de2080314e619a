-- ===== src/P2p/Handler.antt =====
-- p2p/relayerMessageHandler.go: how a message is created, and what a received one must satisfy.
-- The text of the reasons for a blacklisting, and its duration, are left out.
use elrond_eth_bridge.Common.{
  ℕ, ◌+◌, ◌++◌, Result, ok, err, invalid_size, length, ltb, if◌then◌else◌, u64,
}
use elrond_eth_bridge.Common.Bytes.{Bytes}
use elrond_eth_bridge.Common.State.{State, give, ◌>>=◌, ◌>>◌, or_fail}
use elrond_eth_bridge.Common.Uint.{put_uint64}
use elrond_eth_bridge.Signatures.{SignedMessage}
use elrond_eth_bridge.P2p.{Message, Network, Broadcaster}

abbrev pub absolut_max_slice_size : ℕ
absolut_max_slice_size = 1024

-- `checkLengths`
unfoldable pub check_lengths : SignedMessage → Result (Unit {0})
check_lengths msg =
    if ltb absolut_max_slice_size (length msg.public_key_bytes)
    then err invalid_size
    else if ltb absolut_max_slice_size (length msg.signature)
    then err invalid_size
    else if ltb absolut_max_slice_size (length msg.payload)
    then err invalid_size
    else ok tt

module _ {W K : Type 0} (net : Network W K) where
  -- A call of the code outside, with the world it changes.
  abbrev pub ask : {A : Type 0} → (W → A × W) → State (Broadcaster W) A
  ask f s = ((f s.world).0, record s { world = (f s.world).1 })

  abbrev pub tell : (W → W) → State (Broadcaster W) (Unit {0})
  tell f s = (tt, record s { world = f s.world })

  -- `canProcessMessage`; its test for a nil message comes after the message was read.
  unfoldable pub can_process_message : Message → Bytes → State (Broadcaster W) (Result (Unit {0}))
  can_process_message message from_connected_peer = do
    r ← ask (net.antiflood_can_process_message message from_connected_peer)
    or_fail r λ _. ask (
        net.antiflood_can_process_messages_on_topic from_connected_peer message.topic 1
          (length message.contents) message.seq_no)

  -- Both peers are blacklisted for a message that cannot be read or verified.
  abbrev blacklist : Message → Bytes → State (Broadcaster W) (Unit {0})
  blacklist message from_connected_peer =
      tell (net.blacklist_peer message.peer) >> tell (net.blacklist_peer from_connected_peer)

  -- `preProcessMessage`
  unfoldable pub pre_process_message :
      Message → Bytes → State (Broadcaster W) (Result SignedMessage)
  pre_process_message message from_connected_peer = elim (net.unmarshal_message message.contents) [
    | err e ↦ blacklist message from_connected_peer >> give (err e)
    | ok msg ↦ or_fail (check_lengths msg) λ _.
        or_fail (net.public_key_from_byte_array msg.public_key_bytes) λ pk.
          elim (net.verify pk (msg.payload ++ put_uint64 msg.nonce) msg.signature) [
            | err e ↦ blacklist message from_connected_peer >> give (err e)
            | ok _ ↦ give (ok msg)
          ]
  ]

  -- `atomic.AddUint64(&rmh.counter, 1)`
  abbrev add_counter : State (Broadcaster W) ℕ
  add_counter s = (u64 (s.counter + 1), record s { counter = u64 (s.counter + 1) })

  -- `createMessage`
  unfoldable pub create_message : Bytes → State (Broadcaster W) (Result SignedMessage)
  create_message payload = do
    nonce ← add_counter
    r ← ask (net.sign (payload ++ put_uint64 nonce))
    or_fail r λ sig s. (
      ok (record {
        payload = payload;
        public_key_bytes = s.public_key_bytes;
        signature = sig;
        nonce = nonce;
      }),
      s,
    )
