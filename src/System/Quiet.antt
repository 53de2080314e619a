-- ===== src/System/Quiet.antt =====
-- The methods of clients/ethereum/client.go that only ask leave its log as it is.
use elrond_eth_bridge.Common.{ℕ, ◌≡◌, refl, List, [], ◌∷◌, Option-cases, arith}
use elrond_eth_bridge.Common.Bytes.{Bytes}
use elrond_eth_bridge.Common.Panic.{Returns}
use elrond_eth_bridge.Ethereum.{Chain, ContractDeposit, Client}
use elrond_eth_bridge.Ethereum.Batches.{cached_token, convert_deposits, create_batch, get_batch}
use elrond_eth_bridge.Ethereum.Availability.{
  check_client_availability, note_block, set_status_for_availability_check,
  increment_retries_availability_check,
}
use elrond_eth_bridge.Ethereum.Transfer.{broadcast_signature_for_message_hash, is_quorum_reached}

module _ {W : Type 0} (chain : Chain W) where
  abbrev pub SameLog : Client W → Client W → Type 0
  SameLog s t = t.calls ≡ s.calls

  convert_deposits_log :
      (deposits : List ContractDeposit) (cached : List (Bytes × Bytes)) (s : Client W)
      → SameLog s (convert_deposits chain deposits cached s).1
  unfolding convert_deposits
  convert_deposits_log [] cached s = refl
  convert_deposits_log (deposit ∷ deposits) cached s = grind (
    arith,
    Option-cases (cached_token deposit.token_address cached),
    λ (cached' : List (Bytes × Bytes)) (t : Client W). convert_deposits_log deposits cached' t,
  )

  pub get_batch_log : (nonce : ℕ) (s : Client W) → SameLog s (get_batch chain nonce s).1
  unfolding get_batch create_batch
  get_batch_log nonce s = grind (
    arith,
    λ (deposits : List ContractDeposit) (t : Client W). convert_deposits_log deposits [] t,
  )

  pub check_client_availability_log :
      (s : Client W) → SameLog s (check_client_availability chain s).1
  unfolding check_client_availability note_block set_status_for_availability_check
      increment_retries_availability_check
  check_client_availability_log s = ground arith

  pub is_quorum_reached_log :
      (hash : Bytes) (s : Client W) → Returns (λ _ t. SameLog s t) (is_quorum_reached chain hash s)
  unfolding is_quorum_reached
  is_quorum_reached_log hash s = ground arith

  pub broadcast_log :
      (hash : Bytes) (s : Client W)
      → Returns (λ _ t. SameLog s t) (broadcast_signature_for_message_hash chain hash s)
  unfolding broadcast_signature_for_message_hash
  broadcast_log hash s = ground arith
