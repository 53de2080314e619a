-- ===== src/Elrond.antt =====
-- clients/elrond/client.go, clients/elrond/dataGetter.go and clients/elrond/transactionHandler.go: the
-- state of the Elrond client, and what it works with.
pub mod Requests
pub mod Pending
pub mod DataGetter
pub mod Availability
mod Tests
use elrond_eth_bridge.Common.{ℕ, String, Bool, List, ◌∷◌, Option, Result, ok, err, Error}
use elrond_eth_bridge.Common.Bytes.{Bytes}
use elrond_eth_bridge.Common.Int.{ℤ}
use elrond_eth_bridge.Common.State.{State}

-- The arguments of a `TxDataBuilder` of the SDK, as they were given.
pub data Arg : Type 0 where
  arg_int64 : ℤ → Arg
  arg_bytes : Bytes → Arg
  arg_big_int : Option ℤ → Arg
  arg_address : Bytes → Arg

-- What a builder holds: the name of the function, and the arguments.
pub record TxData : Type 0 where
  pub function : String
  pub args : List Arg

-- `data.Transaction`: the fields that the handler does not copy from the configuration.
pub record Transaction : Type 0 where
  pub nonce : ℕ
  pub gas_limit : ℕ
  pub tx_data : Bytes
  pub signature : Bytes

-- `ElrondGasMapConfig`, of `uint64` values.
pub record GasMapConfig : Type 0 where
  pub sign : ℕ
  pub propose_transfer_base : ℕ
  pub propose_transfer_for_each : ℕ
  pub propose_status_base : ℕ
  pub propose_status_for_each : ℕ
  pub perform_action_base : ℕ
  pub perform_action_for_each : ℕ

-- The code behind the client: the queries of the contract, the proxy, the handler of nonces, the
-- role provider, the signer, the builders, the tokens mapper, the status handler, and the texts of
-- addresses, of errors, and of the `Sprintf` in `CheckClientAvailability`.
pub record Proxy (W : Type 0) : Type 0 where
  pub get_current_batch_as_data_bytes : W → Result (List Bytes) × W
  pub is_paused : W → Result Bool × W
  pub is_whitelisted : W → Bool × W
  pub get_network_config : W → Result (Unit {0}) × W
  pub get_nonce : W → Result ℕ × W
  pub to_data_bytes : TxData → Result Bytes
  pub sign_transaction : ℕ → ℕ → Bytes → W → Result Bytes × W
  pub send_transaction : Transaction → W → Result Bytes × W
  pub convert_token : Bytes → W → Result Bytes × W
  pub get_current_nonce : W → Result ℕ × W
  pub set_string_metric : String → String → W → W
  pub set_int_metric : String → ℤ → W → W
  pub error_text : Error → String
  pub fetched_in_a_row_text : ℕ → ℕ → String
  pub to_bech32_string : Bytes → String
  pub to_hex_string_with_prefix : Bytes → String
  pub text : Bytes → String

-- `client` with its `transactionHandler`: the gas limits, the counters of the availability check, the
-- world, and the transactions that were given to the handler of nonces, newest first.
pub record Client (W : Type 0) : Type 0 where
  pub gas_map_config : GasMapConfig
  pub allow_delta : ℕ
  pub last_nonce : ℕ
  pub retries_availability_check : ℕ
  pub world : W
  pub transactions : List Transaction

module _ {W : Type 0} where
  abbrev pub ask : {A : Type 0} → (W → A × W) → State (Client W) A
  ask f s = ((f s.world).0, record s { world = (f s.world).1 })

  -- `nonceTxHandler.SendTransaction`
  abbrev pub send : Proxy W → Transaction → State (Client W) (Result Bytes)
  send proxy tx s = (
    (proxy.send_transaction tx s.world).0,
    record s { world = (proxy.send_transaction tx s.world).1; transactions = tx ∷ s.transactions },
  )
