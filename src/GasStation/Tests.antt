-- ===== src/GasStation/Tests.antt =====
-- The gas station at concrete inputs.
use elrond_eth_bridge.Common.{◌≡◌, refl, Result, ok, err, external, invalid_value, [], ◌∷◌}
use elrond_eth_bridge.Common.Bytes.{Bytes}
use elrond_eth_bridge.Common.Int.{ℤ, pos, negsuc, ◌≤ℤ◌, ◌*ℤ◌}
use elrond_eth_bridge.GasStation.{
  eth_propose_gas_price, GasStationResponse, GasStation, selected_price, do_request,
  do_request_with_retry_mechanism, is_unset, get_current_gas_price,
}
use elrond_eth_bridge.GasStation.Create.{
  ArgsGasStation, check_args, check_selector, new_gas_station, process_loop, running_price-bounded,
}

abbrev scan : Bytes → Result ℤ
scan [] = err (external 1)
scan (n ∷ _) = ok (pos n)

abbrev station : GasStation
station = record {
  maximum_fetch_retries = 2;
  maximum_gas_price = pos 100;
  gas_price_selector = eth_propose_gas_price;
  gas_price_multiplier = pos 1000000000;
  latest_gas_price = negsuc 0;
  fetch_retries = 1;
}

abbrev response : GasStationResponse
response = record {
  safe_gas_price = 80 ∷ [];
  propose_gas_price = 81 ∷ [];
  fast_gas_price = 82 ∷ [];
}

priced : get_current_gas_price (do_request scan (ok response) station).1 ≡ ok (pos 81000000000)
unfolding get_current_gas_price do_request selected_price is_unset
priced = refl

abbrev args : ArgsGasStation
args = record {
  request_polling_interval = pos 60000000000;
  request_retry_delay = pos 5000000000;
  maximum_fetch_retries = pos 2;
  request_time = pos 2000000000;
  maximum_gas_price = pos 100;
  gas_price_selector = eth_propose_gas_price;
  gas_price_multiplier = pos 1000000000;
}

abbrev new_station : GasStation
new_station = record station { fetch_retries = 0 }

refused : new_gas_station (record args { gas_price_multiplier = pos 0 }) ≡ err invalid_value
unfolding new_gas_station check_args
refused = refl

running_price-bounded_example : pos 81000000000 ≤ℤ pos 100 *ℤ pos 1000000000
unfolding new_gas_station check_args check_selector process_loop do_request_with_retry_mechanism
    do_request get_current_gas_price selected_price is_unset
running_price-bounded_example =
    running_price-bounded scan args new_station (err (external 5) ∷ ok response ∷ [])
      (pos 81000000000) refl refl
