-- ===== src/Elrond/Availability.antt =====
-- CheckClientAvailability and the checks of the constructor's arguments in clients/elrond/client.go.
use elrond_eth_bridge.Common.{
  ℕ, ◌+◌, String, List, [], ◌∷◌, Result, ok, err, ltb, if◌then◌else◌, ◌==◌, u64, invalid_value,
  invalid_gas_value,
}
use elrond_eth_bridge.Common.Int.{int64}
use elrond_eth_bridge.Common.State.{State, give, ◌>>◌}
use elrond_eth_bridge.Ethereum.{ClientStatus, available, unavailable}
use elrond_eth_bridge.Ethereum.Availability.{
  status_text, metric_elrond_client_status, metric_last_elrond_client_error,
  metric_last_block_nonce,
}
use elrond_eth_bridge.Elrond.{GasMapConfig, Proxy, Client}

-- `checkGasMapValues`: the loop over the fields of the struct.
unfoldable pub check_gas_values : List ℕ → Result (Unit {0})
check_gas_values [] = ok tt
check_gas_values (value ∷ values) =
    if value == 0 then err invalid_gas_value else check_gas_values values

unfoldable pub check_gas_map_values : GasMapConfig → Result (Unit {0})
check_gas_map_values gas = check_gas_values (
    gas.sign ∷ gas.propose_transfer_base ∷ gas.propose_transfer_for_each ∷ gas.propose_status_base
    ∷ gas.propose_status_for_each ∷ gas.perform_action_base ∷ gas.perform_action_for_each ∷ [])

abbrev min_allowed_delta : ℕ
min_allowed_delta = 1

-- `checkArgs`, of the arguments that are numbers.
unfoldable pub check_args : ℕ → GasMapConfig → Result (Unit {0})
check_args allow_delta gas =
    if ltb allow_delta min_allowed_delta then err invalid_value else check_gas_map_values gas

module _ {W : Type 0} (proxy : Proxy W) where
  abbrev change_world : (W → W) → State (Client W) (Unit {0})
  change_world f s = (tt, record s { world = f s.world })

  -- `setStatusForAvailabilityCheck`
  unfoldable pub set_status_for_availability_check :
      ClientStatus → String → ℕ → State (Client W) (Unit {0})
  set_status_for_availability_check status message nonce =
      change_world (proxy.set_string_metric metric_elrond_client_status (status_text status))
      >> change_world (proxy.set_string_metric metric_last_elrond_client_error message)
      >> change_world (proxy.set_int_metric metric_last_block_nonce (int64 nonce))

  -- The counter starts again at a nonce that was not the last one.
  unfoldable pub note_nonce : ℕ → State (Client W) (Unit {0})
  note_nonce current_nonce s = (
    tt,
    if current_nonce == s.last_nonce
        then s
        else record s { retries_availability_check = 0; last_nonce = current_nonce },
  )

  -- `incrementRetriesAvailabilityCheck`
  unfoldable pub increment_retries_availability_check : State (Client W) (Unit {0})
  increment_retries_availability_check s =
      (tt, record s { retries_availability_check = u64 (s.retries_availability_check + 1) })

  unfoldable pub status_of : Client W → ClientStatus
  status_of s = if ltb s.allow_delta s.retries_availability_check then unavailable else available

  -- `CheckClientAvailability`; with an error, `GetCurrentNonce` returns the nonce 0.
  unfoldable pub check_client_availability : State (Client W) (Result (Unit {0}))
  check_client_availability s = elim (proxy.get_current_nonce s.world).0 [
    | err e ↦
        (set_status_for_availability_check unavailable (proxy.error_text e) 0 >> give (err e))
          (record s { world = (proxy.get_current_nonce s.world).1 })
    | ok current_nonce ↦
        (note_nonce current_nonce >> λ t.
        (set_status_for_availability_check (status_of t)
              (if ltb t.allow_delta t.retries_availability_check
                then proxy.fetched_in_a_row_text current_nonce t.retries_availability_check
                else "")
              current_nonce
            >> increment_retries_availability_check
            >> give (ok tt))
          t)
          (record s { world = (proxy.get_current_nonce s.world).1 })
  ]

-- `NewClient`, but for its nil checks and the code behind the client.
unfoldable pub new_client : {W : Type 0} → ℕ → GasMapConfig → W → Result (Client W)
new_client allow_delta gas world = elim (check_args allow_delta gas) [
  | err e ↦ err e
  | ok _ ↦ ok (record {
    gas_map_config = gas;
    allow_delta = allow_delta;
    last_nonce = 0;
    retries_availability_check = 0;
    world = world;
    transactions = [];
  })
]
