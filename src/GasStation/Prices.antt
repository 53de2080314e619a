-- ===== src/GasStation/Prices.antt =====
-- The prices that clients/gasManagement/gasStation.go gives out, and its retries.
use elrond_eth_bridge.Common.{
  length, All, List, [], ◌∷◌, ◌+◌, ◌≤◌, ◌≡◌, ◌⊎◌, Result, ok, err, arith,
}
use elrond_eth_bridge.Common.Bytes.{Bytes}
use elrond_eth_bridge.Common.Int.{ℤ}
use elrond_eth_bridge.GasStation.{
  GasStationResponse, GasStation, Interval, request_polling_interval, request_retry_delay,
  do_request, do_request_with_retry_mechanism,
}

module _ (scan : Bytes → Result ℤ) where
  -- Where the retries are within the maximum, they are so after every request, which either asks for
  -- the delay of a retry and counts one more of them, or for the polling interval and counts none.
  do_request-retries :
      (answer : Result GasStationResponse) (gs : GasStation)
      → gs.fetch_retries ≤ gs.maximum_fetch_retries
      → let (interval, after) = do_request_with_retry_mechanism scan answer gs in
        (after.fetch_retries ≤ after.maximum_fetch_retries)
        × (((interval ≡ request_retry_delay) × (after.fetch_retries ≡ gs.fetch_retries + 1))
            ⊎ ((interval ≡ request_polling_interval) × (after.fetch_retries ≡ 0)))
  unfolding do_request_with_retry_mechanism do_request
  do_request-retries (err e) gs h = ground arith
  do_request-retries (ok response) gs h = ground arith

  -- What a sequence of requests asks to wait for, one answer of the service after the other.
  intervals : List (Result GasStationResponse) → GasStation → List Interval
  intervals [] gs = []
  intervals (answer ∷ answers) gs =
      (do_request_with_retry_mechanism scan answer gs).0
      ∷ intervals answers (do_request_with_retry_mechanism scan answer gs).1

  maximum_kept :
      (answer : Result GasStationResponse) (gs : GasStation)
      → (do_request_with_retry_mechanism scan answer gs).1.maximum_fetch_retries
        ≡ gs.maximum_fetch_retries
  unfolding do_request_with_retry_mechanism do_request
  maximum_kept (err e) gs = ground arith
  maximum_kept (ok response) gs = ground arith

  -- Requests that all ask for the delay of a retry are, with the retries counted before, no more
  -- than the maximum: after that many the station waits for the polling interval.
  intervals-bounded :
      (answers : List (Result GasStationResponse)) (gs : GasStation)
      → gs.fetch_retries ≤ gs.maximum_fetch_retries
      → All (λ i. i ≡ request_retry_delay) (intervals answers gs)
      → gs.fetch_retries + length answers ≤ gs.maximum_fetch_retries
  unfolding intervals
  intervals-bounded [] gs h all = omega arith
  intervals-bounded (answer ∷ answers) gs h (now, later) = ground (
    arith,
    do_request-retries answer gs h,
    maximum_kept answer gs,
    intervals-bounded answers (do_request_with_retry_mechanism scan answer gs).1,
  )
