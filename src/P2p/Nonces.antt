-- ===== src/P2p/Nonces.antt =====
-- p2p/noncesOfPublicKeys.go: the last nonce of every public key, which stops replays.
use elrond_eth_bridge.Common.{
  ℕ, ◌<◌, ◌≤◌, ◌≡◌, ◌≢◌, Result, ok, err, nonce_too_low_in_received_message, List, [], ◌∷◌, ◌⊎◌,
  inl, inr, Bool-cases, if◌then◌else◌, leb, arith,
}
use elrond_eth_bridge.Common.Bytes.{Bytes, bytes_equal, bytes_equal_iff}
use elrond_eth_bridge.Signatures.{SignedMessage}

-- `holder.nonces[pk]`; a missing key reads 0.
unfoldable pub nonce_of : Bytes → List (Bytes × ℕ) → ℕ
nonce_of pk [] = 0
nonce_of pk ((k, n) ∷ nonces) = if bytes_equal k pk then n else nonce_of pk nonces

-- `holder.nonces[pk] = nonce`
unfoldable pub put_nonce : Bytes → ℕ → List (Bytes × ℕ) → List (Bytes × ℕ)
put_nonce pk nonce [] = (pk, nonce) ∷ []
put_nonce pk nonce ((k, n) ∷ nonces) =
    if bytes_equal k pk then (k, nonce) ∷ nonces else (k, n) ∷ put_nonce pk nonce nonces

-- `processNonce`
unfoldable pub process_nonce :
    SignedMessage → List (Bytes × ℕ) → Result (Unit {0}) × List (Bytes × ℕ)
process_nonce msg nonces =
    if leb msg.nonce (nonce_of msg.public_key_bytes nonces)
    then (err nonce_too_low_in_received_message, nonces)
    else (ok tt, put_nonce msg.public_key_bytes msg.nonce nonces)

pub nonce_of-put_nonce_same :
    (pk : Bytes) (n : ℕ) (nonces : List (Bytes × ℕ)) → nonce_of pk (put_nonce pk n nonces) ≡ n
unfolding nonce_of put_nonce
nonce_of-put_nonce_same pk n [] = ground (arith, bytes_equal_iff pk pk)
nonce_of-put_nonce_same pk n ((k, v) ∷ nonces) =
    ground (arith, bytes_equal_iff k pk, nonce_of-put_nonce_same pk n nonces)

pub nonce_of-put_nonce_other :
    (pk other : Bytes) (n : ℕ) (nonces : List (Bytes × ℕ))
    → other ≢ pk
    → nonce_of other (put_nonce pk n nonces) ≡ nonce_of other nonces
unfolding nonce_of put_nonce
nonce_of-put_nonce_other pk other n [] h = ground (arith, bytes_equal_iff pk other)
nonce_of-put_nonce_other pk other n ((k, v) ∷ nonces) h = ground (
  arith,
  bytes_equal_iff k pk,
  bytes_equal_iff k other,
  nonce_of-put_nonce_other pk other n nonces h,
)

put_nonce-others :
    (pk : Bytes) (n : ℕ) (nonces : List (Bytes × ℕ)) (other : Bytes)
    → (other ≡ pk) ⊎ (nonce_of other (put_nonce pk n nonces) ≡ nonce_of other nonces)
put_nonce-others pk n nonces other = elim (Bool-cases (bytes_equal other pk)) [
  | inl same ↦ inl ((bytes_equal_iff other pk).0 same)
  | inr differs ↦
      inr (nonce_of-put_nonce_other pk other n nonces (ground (arith, bytes_equal_iff other pk)))
]

-- A message is accepted exactly when its nonce is above the last one of its key, which it then
-- becomes; the last nonces of the other keys stay, and a refused message changes none.
process_nonce_lem :
    (msg : SignedMessage) (nonces : List (Bytes × ℕ))
    → let last = nonce_of msg.public_key_bytes nonces in
      let (result, new) = process_nonce msg nonces in
      ((last < msg.nonce)
        × (result ≡ ok tt)
        × (nonce_of msg.public_key_bytes new ≡ msg.nonce)
        × ((pk : Bytes) → (pk ≡ msg.public_key_bytes) ⊎ (nonce_of pk new ≡ nonce_of pk nonces)))
      ⊎ ((msg.nonce ≤ last) × (result ≡ err nonce_too_low_in_received_message) × (new ≡ nonces))
unfolding process_nonce
process_nonce_lem msg nonces = grind (
  arith,
  nonce_of-put_nonce_same msg.public_key_bytes msg.nonce nonces,
  put_nonce-others msg.public_key_bytes msg.nonce nonces,
)
