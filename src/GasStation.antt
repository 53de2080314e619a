-- ===== src/GasStation.antt =====
-- clients/gasManagement/gasStation.go: the gas price that the Ethereum client pays.
pub mod Prices
pub mod Create
mod Tests
use elrond_eth_bridge.Common.{
  ℕ, ◌+◌, Result, ok, err, Error, ltb, leb, if◌then◌else◌, ◌==◌, Bool, true, false,
  latest_gas_prices_were_not_fetched, gas_price_is_higher_than_the_maximum_set,
  invalid_gas_price_selector,
}
use elrond_eth_bridge.Common.Bytes.{Bytes}
use elrond_eth_bridge.Common.Int.{ℤ, pos, negsuc, ltb_ℤ, ◌*ℤ◌}

-- `EthGasPriceSelector`, a string of which three values are known.
pub data EthGasPriceSelector : Type 0 where
  eth_fast_gas_price eth_propose_gas_price eth_safe_gas_price other_selector : EthGasPriceSelector

-- The prices of `gasStationResponse`, as texts.
pub record GasStationResponse : Type 0 where
  pub safe_gas_price : Bytes
  pub propose_gas_price : Bytes
  pub fast_gas_price : Bytes

pub record GasStation : Type 0 where
  pub maximum_fetch_retries : ℕ
  pub maximum_gas_price : ℤ
  pub gas_price_selector : EthGasPriceSelector
  pub gas_price_multiplier : ℤ
  pub latest_gas_price : ℤ
  pub fetch_retries : ℕ

-- How long `processLoop` waits for the next request.
pub data Interval : Type 0 where
  request_polling_interval request_retry_delay : Interval

module _ (scan : Bytes → Result ℤ) where
  -- The `switch` of `doRequest`; `scan` is `Sscanf` with "%d".
  unfoldable pub selected_price : EthGasPriceSelector → GasStationResponse → Result ℤ
  selected_price eth_fast_gas_price response = scan response.fast_gas_price
  selected_price eth_propose_gas_price response = scan response.propose_gas_price
  selected_price eth_safe_gas_price response = scan response.safe_gas_price
  selected_price other_selector response = err invalid_gas_price_selector

  -- `doRequest`, by what the service answers: an error of the request or of the JSON leaves the
  -- price, one of the text leaves -1.
  unfoldable pub do_request :
      Result GasStationResponse → GasStation → Result (Unit {0}) × GasStation
  do_request (err e) gs = (err e, gs)
  do_request (ok response) gs = elim (selected_price gs.gas_price_selector response) [
    | err e ↦ (err e, record gs { latest_gas_price = negsuc 0 })
    | ok price ↦ (ok tt, record gs { latest_gas_price = price })
  ]

  -- `doRequestWithRetryMechanism`
  abbrev after_request : Result (Unit {0}) → GasStation → Interval × GasStation
  after_request (ok _) gs = (request_polling_interval, record gs { fetch_retries = 0 })
  after_request (err _) gs =
      if leb (gs.fetch_retries + 1) gs.maximum_fetch_retries
      then (request_retry_delay, record gs { fetch_retries = gs.fetch_retries + 1 })
      else (request_polling_interval, record gs { fetch_retries = 0 })

  unfoldable pub do_request_with_retry_mechanism :
      Result GasStationResponse → GasStation → Interval × GasStation
  do_request_with_retry_mechanism answer gs =
      after_request (do_request answer gs).0 (do_request answer gs).1

-- `gs.latestGasPrice == -1`
unfoldable pub is_unset : ℤ → Bool
is_unset (pos n) = false
is_unset (negsuc n) = n == 0

-- `GetCurrentGasPrice`
unfoldable pub get_current_gas_price : GasStation → Result ℤ
get_current_gas_price gs =
    if is_unset gs.latest_gas_price
    then err latest_gas_prices_were_not_fetched
    else if ltb_ℤ gs.maximum_gas_price gs.latest_gas_price
    then err gas_price_is_higher_than_the_maximum_set
    else ok (gs.latest_gas_price *ℤ gs.gas_price_multiplier)
