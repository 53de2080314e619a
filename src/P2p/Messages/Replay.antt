-- ===== src/P2p/Messages/Replay.antt =====
-- Replays: no sequence of messages makes a relayer accept two messages of a public key whose nonces
-- do not grow (processNonce in ProcessReceivedMessage).
use elrond_eth_bridge.Common.{
  ℕ, ◌<◌, ◌≤◌, ◌≡◌, ◌≢◌, ◌⊎◌, inl, inr, refl, true, false, List, [], ◌∷◌, Result, ok, err,
  Result-cases, Bool-cases, arith,
}
use elrond_eth_bridge.Common.Bytes.{Bytes, bytes_equal, bytes_equal_iff}
use elrond_eth_bridge.Signatures.{SignedMessage}
use elrond_eth_bridge.P2p.{Message, Network, Broadcaster}
use elrond_eth_bridge.P2p.Nonces.{
  nonce_of, put_nonce, nonce_of-put_nonce_same, nonce_of-put_nonce_other,
}
use elrond_eth_bridge.P2p.Messages.{process_received_message}
use elrond_eth_bridge.P2p.Messages.Accepted.{Received, process_received_message-Received}

-- The nonces that the messages of a public key have, in the order they come.
abbrev pub nonces_by : Bytes → List SignedMessage → List ℕ
nonces_by pk [] = []
nonces_by pk (msg ∷ msgs) = elim (bytes_equal msg.public_key_bytes pk) [
  | true ↦ msg.nonce ∷ nonces_by pk msgs
  | false ↦ nonces_by pk msgs
]

-- Above a number, and strictly increasing.
abbrev pub IsIncreasing : ℕ → List ℕ → Type 0
IsIncreasing last [] = Unit
IsIncreasing last (n ∷ ns) = (last < n) × IsIncreasing n ns

IsIncreasing-mono : (m n : ℕ) (ns : List ℕ) → m ≤ n → IsIncreasing n ns → IsIncreasing m ns
IsIncreasing-mono m n [] le h = tt
IsIncreasing-mono m n (x ∷ ns) le h = (omega (arith, h.0), h.1)

module _ {W K : Type 0} (net : Network W K) where
  -- The message, where `ProcessReceivedMessage` accepted what was received.
  kept : Result (Unit {0}) → Result SignedMessage → List SignedMessage → List SignedMessage
  kept (ok _) (ok msg) msgs = msg ∷ msgs
  kept (ok _) (err _) msgs = msgs
  kept (err _) r msgs = msgs

  -- The messages that `ProcessReceivedMessage` accepts of a sequence of received ones.
  unfoldable pub accepted : List (Message × Bytes) → Broadcaster W → List SignedMessage
  unfolding kept
  accepted [] s = []
  accepted ((message, from) ∷ messages) s =
      let rest = accepted messages (process_received_message net message from s).1 in
      kept (process_received_message net message from s).0 (net.unmarshal_message message.contents)
        rest

  put_nonce-grows :
      (pk : Bytes) (msg : SignedMessage) (nonces : List (Bytes × ℕ))
      → nonce_of msg.public_key_bytes nonces < msg.nonce
      → nonce_of pk nonces ≤ nonce_of pk (put_nonce msg.public_key_bytes msg.nonce nonces)
  put_nonce-grows pk msg nonces h = ground (
    arith,
    bytes_equal_iff pk msg.public_key_bytes,
    Bool-cases (bytes_equal pk msg.public_key_bytes),
    nonce_of-put_nonce_same msg.public_key_bytes msg.nonce nonces,
    nonce_of-put_nonce_other msg.public_key_bytes pk msg.nonce nonces,
  )

  nonces_after :
      (message : Message) (from : Bytes) (s : Broadcaster W) (msg : SignedMessage)
      (result : Result (Unit {0})) (t : Broadcaster W)
      → Received net s message from (ok msg) result t
      → ((result ≢ ok tt) × (t.nonces ≡ s.nonces))
        ⊎ ((nonce_of msg.public_key_bytes s.nonces < msg.nonce)
            × (t.nonces ≡ put_nonce msg.public_key_bytes msg.nonce s.nonces))
  nonces_after message from s msg result t h =
      ground (arith, Result-cases (net.unmarshal_signature msg.payload))

  step_increases :
      (pk : Bytes) (message : Message) (from : Bytes) (s : Broadcaster W) (r : Result SignedMessage)
      (result : Result (Unit {0})) (t : Broadcaster W) (msgs : List SignedMessage)
      → Received net s message from r result t
      → IsIncreasing (nonce_of pk t.nonces) (nonces_by pk msgs)
      → IsIncreasing (nonce_of pk s.nonces) (nonces_by pk (kept result r msgs))
  unfolding kept
  step_increases pk message from s (err _) (ok _) t msgs h rest = absurd (h.0 refl)
  step_increases pk message from s (err _) (err _) t msgs h rest = rw (← h.1.nonces_are) rest
  step_increases pk message from s (ok msg) (err e) t msgs h rest =
      elim (nonces_after message from s msg (err e) t h) [
        | inl (_, same) ↦ rw (← same) rest
        | inr (newer, put) ↦
            IsIncreasing-mono (nonce_of pk s.nonces) (nonce_of pk t.nonces) (nonces_by pk msgs)
              (rw put (put_nonce-grows pk msg s.nonces newer)) rest
      ]
  step_increases pk message from s (ok msg) (ok _) t msgs h rest = ground (
    arith,
    nonces_after message from s msg (ok tt) t h,
    put_nonce-grows pk msg s.nonces,
    bytes_equal_iff msg.public_key_bytes pk,
    nonce_of-put_nonce_same msg.public_key_bytes msg.nonce s.nonces,
    IsIncreasing-mono (nonce_of pk s.nonces) (nonce_of pk t.nonces) (nonces_by pk msgs),
  )

  -- Of any messages, from any peers and in any order, those that a relayer accepts of one public
  -- key have strictly increasing nonces, all above the last one it knew: nothing is accepted twice.
  pub accepted-IsIncreasing :
      (pk : Bytes) (messages : List (Message × Bytes)) (s : Broadcaster W)
      → IsIncreasing (nonce_of pk s.nonces) (nonces_by pk (accepted messages s))
  unfolding accepted
  accepted-IsIncreasing pk [] s = tt
  accepted-IsIncreasing pk ((message, from) ∷ messages) s =
      step_increases pk message from s (net.unmarshal_message message.contents)
        (process_received_message net message from s).0
        (process_received_message net message from s).1
        (accepted messages (process_received_message net message from s).1)
        (process_received_message-Received net message from s)
        (accepted-IsIncreasing pk messages (process_received_message net message from s).1)
