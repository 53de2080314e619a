-- ===== src/Ethereum/Availability.antt =====
-- CheckClientAvailability of clients/ethereum/client.go.
use elrond_eth_bridge.Common.{
  ℕ, zero, suc, ◌+◌, ◌^◌, ◌<◌, ◌≡◌, ◌≢◌, String, Result, ok, err, ltb, if◌then◌else◌, ◌==◌, u64,
  arith,
}
use elrond_eth_bridge.Common.Int.{int64}
use elrond_eth_bridge.Common.State.{State, give, ◌>>◌}
use elrond_eth_bridge.Ethereum.{ClientStatus, available, unavailable, Chain, Client}

-- `ClientStatus.String` and the names of the metrics; the client sets the metrics of the Elrond
-- client.
abbrev pub status_text : ClientStatus → String
status_text available = "Available"
status_text unavailable = "Unavailable"

abbrev pub metric_elrond_client_status : String
metric_elrond_client_status = "elrond client status"

abbrev pub metric_last_elrond_client_error : String
metric_last_elrond_client_error = "elrond client last encountered error"

abbrev pub metric_last_block_nonce : String
metric_last_block_nonce = "last block nonce"

module _ {W : Type 0} (chain : Chain W) where
  abbrev change_world : (W → W) → State (Client W) (Unit {0})
  change_world f s = (tt, record s { world = f s.world })

  -- `setStatusForAvailabilityCheck`
  unfoldable pub set_status_for_availability_check :
      ClientStatus → String → ℕ → State (Client W) (Unit {0})
  set_status_for_availability_check status message nonce =
      change_world (chain.set_string_metric metric_elrond_client_status (status_text status))
      >> change_world (chain.set_string_metric metric_last_elrond_client_error message)
      >> change_world (chain.set_int_metric metric_last_block_nonce (int64 nonce))

  -- The counter starts again at a block that was not the last one.
  unfoldable pub note_block : ℕ → State (Client W) (Unit {0})
  note_block current_block s = (
    tt,
    if current_block == s.last_block_number
        then s
        else record s { retries_availability_check = 0; last_block_number = current_block },
  )

  -- `incrementRetriesAvailabilityCheck`
  unfoldable pub increment_retries_availability_check : State (Client W) (Unit {0})
  increment_retries_availability_check s =
      (tt, record s { retries_availability_check = u64 (s.retries_availability_check + 1) })

  -- The status that a fetched block gives, which the metrics then show.
  unfoldable pub status_of : Client W → ClientStatus
  status_of s = if ltb s.allow_delta s.retries_availability_check then unavailable else available

  -- `CheckClientAvailability`; with an error, `BlockNumber` returns the block 0.
  unfoldable pub check_client_availability : State (Client W) (Result (Unit {0}))
  check_client_availability s = elim (chain.block_number s.world).0 [
    | err e ↦
        (set_status_for_availability_check unavailable (chain.error_text e) 0 >> give (err e))
          (record s { world = (chain.block_number s.world).1 })
    | ok current_block ↦
        (note_block current_block >> λ t.
        (set_status_for_availability_check (status_of t)
              (if ltb t.allow_delta t.retries_availability_check
                then chain.fetched_in_a_row_text current_block t.retries_availability_check
                else "")
              current_block
            >> increment_retries_availability_check
            >> give (ok tt))
          t)
          (record s { world = (chain.block_number s.world).1 })
  ]

  -- A number of checks, one after the other.
  unfoldable pub checks : ℕ → Client W → Client W
  checks zero s = s
  checks (suc n) s = (check_client_availability (checks n s)).1

  -- The world after the metrics were set.
  abbrev pub shown : ClientStatus → String → ℕ → W → W
  shown status message nonce w = chain.set_int_metric metric_last_block_nonce (int64 nonce) (
      chain.set_string_metric metric_last_elrond_client_error message
        (chain.set_string_metric metric_elrond_client_status (status_text status) w))

  record IsStuck (block n : ℕ) (s t : Client W) : Type 0 where
    block_is : t.last_block_number ≡ block
    retries_are : t.retries_availability_check ≡ n
    delta_kept : t.allow_delta ≡ s.allow_delta

  checks-IsStuck :
      (block n : ℕ) (s : Client W)
      → ((w : W) → (chain.block_number w).0 ≡ ok block)
      → s.last_block_number ≢ block
      → n + 1 < 2 ^ 64
      → IsStuck block (n + 1) s (checks (suc n) s)
  unfolding checks check_client_availability note_block set_status_for_availability_check
      increment_retries_availability_check
  checks-IsStuck block zero s always new room = grind (arith, always s.world)
  checks-IsStuck block (suc n) s always new room =
      grind
        (arith, always (checks (suc n) s).world, checks-IsStuck block n s always new (omega arith))

  -- Where a node answers with one new block for ever, the check number n + 1 shows the client as
  -- available exactly while n is at most `allow_delta`, and as unavailable from then on.
  pub checks_lem :
      (block n : ℕ) (s : Client W)
      → ((w : W) → (chain.block_number w).0 ≡ ok block)
      → s.last_block_number ≢ block
      → n < 2 ^ 64
      → (checks (suc n) s).world
        ≡ shown
            (if ltb s.allow_delta n then unavailable else available)
            (if ltb s.allow_delta n then chain.fetched_in_a_row_text block n else "")
            block
            (chain.block_number (checks n s).world).1
  unfolding checks check_client_availability note_block set_status_for_availability_check
      increment_retries_availability_check status_of
  checks_lem block zero s always new room = grind (arith, always s.world)
  checks_lem block (suc n) s always new room =
      grind
        (arith, always (checks (suc n) s).world, checks-IsStuck block n s always new (omega arith))
