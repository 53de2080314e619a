-- ===== src/GasStation/Create.antt =====
-- clients/gasManagement/gasStation.go: the constructor and the loop that it starts, over the answers
-- of the service.
use elrond_eth_bridge.Common.{
  ℕ, Bool, ◌≡◌, sym, ◌∙◌, ap, List, [], ◌∷◌, Result, ok, err, if◌then◌else◌, arith, invalid_value,
  invalid_gas_price_selector,
}
use mathlib.Core.Path.{subst}
use native.Mathlib.Nat.{mul-le-mul_right}
use Prim.Native.Nat.{suc}
use elrond_eth_bridge.Common.Bytes.{Bytes}
use elrond_eth_bridge.Common.Int.{ℤ, pos, negsuc, ltb_ℤ, ◌≤ℤ◌, ◌*ℤ◌, pos_part}
use elrond_eth_bridge.GasStation.{
  EthGasPriceSelector, other_selector, GasStationResponse, GasStation, do_request,
  do_request_with_retry_mechanism, get_current_gas_price,
}

-- The fields of `ArgsGasStation` that are numbers, of which the durations are in nanoseconds.
pub record ArgsGasStation : Type 0 where
  pub request_polling_interval : ℤ
  pub request_retry_delay : ℤ
  pub maximum_fetch_retries : ℤ
  pub request_time : ℤ
  pub maximum_gas_price : ℤ
  pub gas_price_selector : EthGasPriceSelector
  pub gas_price_multiplier : ℤ

-- A second and a millisecond.
abbrev min_polling_interval : ℤ
min_polling_interval = pos 1000000000

abbrev min_request_time : ℤ
min_request_time = pos 1000000

abbrev min_gas_price_multiplier : ℤ
min_gas_price_multiplier = pos 1

abbrev min_fetch_retries : ℤ
min_fetch_retries = pos 2

unfoldable pub check_selector : EthGasPriceSelector → Result (Unit {0})
check_selector other_selector = err invalid_gas_price_selector
check_selector _ = ok tt

-- `checkArgs`
unfoldable pub check_args : ArgsGasStation → Result (Unit {0})
check_args args =
    if ltb_ℤ args.request_polling_interval min_polling_interval
    then err invalid_value
    else if ltb_ℤ args.request_retry_delay min_polling_interval
    then err invalid_value
    else if ltb_ℤ args.request_time min_request_time
    then err invalid_value
    else if ltb_ℤ args.gas_price_multiplier min_gas_price_multiplier
    then err invalid_value
    else if ltb_ℤ args.maximum_fetch_retries min_fetch_retries
    then err invalid_value
    else check_selector args.gas_price_selector

abbrev created : ArgsGasStation → GasStation
created args = record {
  maximum_fetch_retries = pos_part args.maximum_fetch_retries;
  maximum_gas_price = args.maximum_gas_price;
  gas_price_selector = args.gas_price_selector;
  gas_price_multiplier = args.gas_price_multiplier;
  latest_gas_price = negsuc 0;
  fetch_retries = 0;
}

-- `NewGasStation`
unfoldable pub new_gas_station : ArgsGasStation → Result GasStation
new_gas_station args = elim (check_args args) [ err e ↦ err e | ok _ ↦ ok (created args) ]

-- A `GasHandler`, as `CreateGasStation` of the factory makes it: the station, or the disabled one.
pub data GasHandler : Type 0 where
  running : GasStation → GasHandler
  disabled : GasHandler

unfoldable pub create_gas_station : ArgsGasStation → Bool → Result GasHandler
create_gas_station args enabled =
    if enabled
    then elim (new_gas_station args) [ err e ↦ err e | ok gs ↦ ok (running gs) ]
    else ok disabled

-- `GetCurrentGasPrice` of either.
unfoldable pub current_gas_price : GasHandler → Result ℤ
current_gas_price (running gs) = get_current_gas_price gs
current_gas_price disabled = ok (pos 0)

-- a *ℤ n grows with a.
*-mono_ℤ : (a b : ℤ) (n : ℕ) → a ≤ℤ b → a *ℤ pos n ≤ℤ b *ℤ pos n
*-mono_ℤ (pos a) (pos b) n h = ground (arith, mul-le-mul_right {m = a} {n = b} n (omega (arith, h)))
*-mono_ℤ (pos a) (negsuc b) n h = ground (arith, h)
*-mono_ℤ (negsuc a) (pos b) n h = ground arith
*-mono_ℤ (negsuc a) (negsuc b) n h =
    ground (arith, mul-le-mul_right {m = suc b} {n = suc a} n (omega (arith, h)))

module _ (scan : Bytes → Result ℤ) where
  -- `processLoop`: the requests one after the other, by the answers of the service.
  unfoldable pub process_loop : List (Result GasStationResponse) → GasStation → GasStation
  process_loop [] gs = gs
  process_loop (answer ∷ answers) gs =
      process_loop answers (do_request_with_retry_mechanism scan answer gs).1

  -- The station is set up as `args` say.
  abbrev IsSetUp : ArgsGasStation → GasStation → Type 0
  IsSetUp args gs =
      (gs.maximum_gas_price ≡ args.maximum_gas_price)
      × (gs.gas_price_multiplier ≡ args.gas_price_multiplier)

  request-IsSetUp :
      (args : ArgsGasStation) (answer : Result GasStationResponse) (gs : GasStation)
      → IsSetUp args gs
      → IsSetUp args (do_request_with_retry_mechanism scan answer gs).1
  unfolding do_request_with_retry_mechanism do_request
  request-IsSetUp args (err e) gs h = ground arith
  request-IsSetUp args (ok response) gs h = ground arith

  process_loop-IsSetUp :
      (args : ArgsGasStation) (answers : List (Result GasStationResponse)) (gs : GasStation)
      → IsSetUp args gs
      → IsSetUp args (process_loop answers gs)
  unfolding process_loop
  process_loop-IsSetUp args [] gs h = h
  process_loop-IsSetUp args (answer ∷ answers) gs h =
      process_loop-IsSetUp args answers (do_request_with_retry_mechanism scan answer gs).1
        (request-IsSetUp args answer gs h)

  new_gas_station-IsSetUp :
      (args : ArgsGasStation) (gs : GasStation)
      → new_gas_station args ≡ ok gs
      → IsSetUp args gs × (pos 1 ≤ℤ args.gas_price_multiplier)
  unfolding new_gas_station check_args
  new_gas_station-IsSetUp args gs made = ground (arith, made)

  given_is :
      (gs : GasStation) (price : ℤ)
      → get_current_gas_price gs ≡ ok price
      → (gs.latest_gas_price ≤ℤ gs.maximum_gas_price)
        × (gs.latest_gas_price *ℤ gs.gas_price_multiplier ≡ price)
  unfolding get_current_gas_price
  given_is gs price given = ground (arith, given)

  given-bounded :
      (gs : GasStation) (price factor : ℤ)
      → gs.gas_price_multiplier ≡ factor
      → pos 1 ≤ℤ factor
      → get_current_gas_price gs ≡ ok price
      → price ≤ℤ gs.maximum_gas_price *ℤ factor
  given-bounded gs price (negsuc n) m positive given = omega (arith, positive)
  given-bounded gs price (pos n) m positive given =
      let (within, is) = given_is gs price given in
      subst (λ (x : ℤ). x ≤ℤ gs.maximum_gas_price *ℤ pos n)
        (sym (ap (λ (x : ℤ). gs.latest_gas_price *ℤ x) m) ∙ is)
        (*-mono_ℤ gs.latest_gas_price gs.maximum_gas_price n within)

  -- A price that a station gives out, once made by the constructor and after any sequence of answers
  -- of the service, is at most the configured maximum times the configured multiplier.
  pub running_price-bounded :
      (args : ArgsGasStation) (gs : GasStation) (answers : List (Result GasStationResponse))
      (price : ℤ)
      → new_gas_station args ≡ ok gs
      → get_current_gas_price (process_loop answers gs) ≡ ok price
      → price ≤ℤ args.maximum_gas_price *ℤ args.gas_price_multiplier
  running_price-bounded args gs answers price made given =
      let (set_up, positive) = new_gas_station-IsSetUp args gs made in
      let (maximum, multiplier) = process_loop-IsSetUp args answers gs set_up in
      subst (λ (x : ℤ). price ≤ℤ x *ℤ args.gas_price_multiplier) maximum
        (given-bounded (process_loop answers gs) price args.gas_price_multiplier multiplier positive
          given)
