-- ===== src/Common/Errors.antt =====
-- The sentinel errors of the repository (bridges/ethElrond/errors.go, clients/errors.go,
-- p2p/errors.go and their like), and `(value, error)` results. What `fmt.Errorf` adds to a sentinel
-- by `%w` is text, and is left out.
use Prim.Native.Nat.{ℕ, ◌%◌, ◌^◌}
use mathlib.Core.Path.{◌≡◌, refl}
use mathlib.Core.Logic.{◌⊎◌, inl, inr}

pub data Error : Type 0 where
  nil_batch invalid_deposit_nonce batch_not_found : Error
  step_not_found duplicated_step_identifier nil_step : Error
  invalid_value quorum_not_reached multisig_contract_paused : Error
  nil_message invalid_size peer_not_whitelisted nonce_too_low_in_received_message : Error
  deposits_and_batch_deposits_count_differ insufficient_erc20_balance insufficient_balance : Error
  invalid_address_bytes address_is_not_whitelisted invalid_signature : Error
  latest_gas_prices_were_not_fetched gas_price_is_higher_than_the_maximum_set : Error
  invalid_gas_price_selector : Error
  relayer_not_whitelisted invalid_number_of_arguments not_uint64_bytes : Error
  no_pending_batch_available : Error
  nil_request query_response_error nil_node_status_response unknown_token : Error
  no_status_for_batch_id batch_not_finished malformed_batch_response invalid_gas_value : Error
  invalid_duration empty_name nil_storer status_handler_exists missing_status_handler : Error
  unexpected_status empty_response_body : Error
  invalid_gas_limit invalid_interval_for_leader empty_address : Error
  -- an error of code outside the model, by a number that stands for its text
  external : ℕ → Error

pub data Result {ℓ} (A : Type ℓ) : Type ℓ where
  ok : A → Result A
  err : Error → Result A

pub Result-cases {ℓ} :
    {A : Type ℓ} (r : Result A) → ((a : A) × (r ≡ ok a)) ⊎ ((e : Error) × (r ≡ err e))
Result-cases (ok a) = inl (a, refl)
Result-cases (err e) = inr (e, refl)

-- `uint64` arithmetic wraps.
abbrev pub u64 : ℕ → ℕ
u64 n = n % 2 ^ 64
