-- ===== src/P2p/Messages/Created.antt =====
-- A message that a relayer creates (createMessage) is one that the other relayers accept.
use elrond_eth_bridge.Common.{
  u64, ◌+◌, ◌^◌, ◌<◌, ◌≤◌, ◌≡◌, true, ◌++◌, Result, ok, err, length, arith,
}
use elrond_eth_bridge.Common.Bytes.{Bytes}
use elrond_eth_bridge.Common.Uint.{put_uint64}
use elrond_eth_bridge.Signatures.{SignedMessage}
use elrond_eth_bridge.P2p.{Message, Network, Broadcaster}
use elrond_eth_bridge.P2p.Nonces.{nonce_of}
use elrond_eth_bridge.P2p.Handler.{absolut_max_slice_size, create_message}
use elrond_eth_bridge.P2p.Messages.Accepted.{VerifiesBy, IsFresh}

module _ {W K : Type 0} (net : Network W K) where
  -- What the marshalizer and the signer promise: what was marshalled is read back, and a signature
  -- made with the private key is verified by the public key `pk`.
  abbrev pub Signs : Bytes → Bytes → Result Bytes → Result K → Type 0
  Signs pk contents (ok sig) (ok k) = net.verify k contents sig ≡ ok tt
  Signs pk contents (ok sig) (err _) = ⊥
  Signs pk contents (err _) k = Unit

  pub record IsLawful (pk : Bytes) : Type 0 where
    pub read_back :
        (msg : SignedMessage) (buff : Bytes)
        → net.marshal_message msg ≡ ok buff
        → net.unmarshal_message buff ≡ ok msg
    pub signs :
        (contents : Bytes) (w : W)
        → Signs pk contents (net.sign contents w).0 (net.public_key_from_byte_array pk)

  created_parts :
      (payload : Bytes) (s : Broadcaster W) (msg : SignedMessage)
      → IsLawful s.public_key_bytes
      → (create_message net payload s).0 ≡ ok msg
      → (msg.nonce ≡ u64 (s.counter + 1))
        × (msg.payload ≡ payload)
        × (msg.public_key_bytes ≡ s.public_key_bytes)
        × VerifiesBy net msg (net.public_key_from_byte_array msg.public_key_bytes)
  unfolding create_message
  created_parts payload s msg law made =
      ground (arith, law.signs (payload ++ put_uint64 (u64 (s.counter + 1))) s.world)

  -- What a relayer with a key on the white list creates and marshals is fresh for every other
  -- relayer that knows no nonce of that key above its counter, where the counter does not wrap and
  -- the fields are within the bound.
  pub created-IsFresh :
      (payload buff : Bytes) (s t : Broadcaster W) (msg : SignedMessage) (message : Message)
      → IsLawful s.public_key_bytes
      → (create_message net payload s).0 ≡ ok msg
      → net.marshal_message msg ≡ ok buff
      → message.contents ≡ buff
      → (length msg.public_key_bytes ≤ absolut_max_slice_size)
        × (length msg.signature ≤ absolut_max_slice_size)
        × (length payload ≤ absolut_max_slice_size)
      → s.counter + 1 < 2 ^ 64
      → nonce_of s.public_key_bytes t.nonces ≤ s.counter
      → (net.is_whitelisted s.public_key_bytes t.world).0 ≡ true
      → IsFresh net t message msg
  created-IsFresh payload buff s t msg message law made sent same bounds room known listed =
      ground (arith, created_parts payload s msg law made, law.read_back msg buff sent)
