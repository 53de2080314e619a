-- ===== src/EthToElrond/Kept.antt =====
-- The steps of bridges/ethElrond/steps/ethToElrond keep what the clients keep.
use elrond_eth_bridge.Common.{String, List, Result, ok, err, u64, ◌+◌, arith}
use elrond_eth_bridge.Batch.{DepositTransfer}
use elrond_eth_bridge.Bridge.Clients.{log_debug, log_error, Environment}
use elrond_eth_bridge.Bridge.Monad.{Bridge, M, ◌>>=◌, ◌>>◌, on_error, Leaves, Leaves->>=}
use elrond_eth_bridge.Bridge.Kept.{AllKept, all_kept, Fits}
use elrond_eth_bridge.Bridge.Executor.{
  print_and_return, get_last_executed_eth_batch_id_from_elrond, reset_retries_count_on_elrond,
  get_and_store_batch_from_ethereum, check_elrond_client_availability,
  check_ethereum_client_availability,
}
use elrond_eth_bridge.Bridge.Executor.Kept.{
  print_info-Fits, my_turn_as_leader-Fits, get_stored_batch-Fits,
  get_last_executed_eth_batch_id_from_elrond-Fits,
  verify_last_deposit_nonce_executed_on_ethereum_batch-Fits,
  get_and_store_action_id_for_propose_transfer_on_elrond-Fits, was_transfer_proposed_on_elrond-Fits,
  propose_transfer_on_elrond-Fits, was_action_signed_on_elrond-Fits, sign_action_on_elrond-Fits,
  process_quorum_reached_on_elrond-Fits, was_action_performed_on_elrond-Fits,
  perform_action_on_elrond-Fits, process_max_quorum_retries_on_elrond-Fits,
  reset_retries_count_on_elrond-Fits, get_and_store_batch_from_ethereum-Fits, validate_batch-Fits,
  check_elrond_client_availability-Fits, check_ethereum_client_availability-Fits,
}
use elrond_eth_bridge.EthToElrond.{
  first_step, report_unavailable, Step, getting_pending_batch_from_ethereum,
  proposing_transfer_on_elrond, signing_proposed_transfer_on_elrond, waiting_for_quorum,
  performing_action_id, verify_pending, get_pending, propose_transfer, sign_stored_action,
  sign_proposed_transfer, wait_for_quorum, perform_action_id, execute,
}

module _ {W : Type 0} (env : Environment W) (P : W → Type 0) (D : List DepositTransfer → Type 0)
    (kept : AllKept env P D) where
  verify_pending-Fits : (s : Bridge W) → Fits P D s → Leaves (Fits P D) (verify_pending env s)
  unfolding verify_pending
  verify_pending-Fits s h =
      let k = all_kept env P D kept in
      grind (
        arith,
        print_info-Fits env P D k,
        get_stored_batch-Fits env P D k,
        validate_batch-Fits env P D k,
        verify_last_deposit_nonce_executed_on_ethereum_batch-Fits env P D k,
      )

  report_unavailable-Fits :
      (r : Result (Unit {0})) (m : String) (s : Bridge W)
      → Fits P D s
      → Leaves (Fits P D) (report_unavailable env r m s)
  report_unavailable-Fits (ok _) m s h = h
  report_unavailable-Fits (err e) m s h =
      print_info-Fits env P D (all_kept env P D kept) log_debug m s h

  -- The end of `get_pending`, from the reset of the counter.
  abbrev fetch_pending : M W Step
  fetch_pending = do
    reset_retries_count_on_elrond env
    last ← get_last_executed_eth_batch_id_from_elrond env
    on_error last
        (λ _. print_and_return env log_error "error fetching last executed eth batch ID" first_step)
        λ last_eth_batch_executed. do
          fetched ← get_and_store_batch_from_ethereum env (u64 (last_eth_batch_executed + 1))
          on_error fetched (λ _. print_and_return env log_debug "cannot fetch eth batch" first_step)
              λ _. verify_pending env

  fetch_pending-Fits : (s : Bridge W) → Fits P D s → Leaves (Fits P D) (fetch_pending s)
  fetch_pending-Fits s h =
      let k = all_kept env P D kept in
      grind (
        arith,
        print_info-Fits env P D k,
        reset_retries_count_on_elrond-Fits env P D k,
        get_last_executed_eth_batch_id_from_elrond-Fits env P D k,
        get_and_store_batch_from_ethereum-Fits env P D k,
        verify_pending-Fits,
      )

  get_pending-Fits : (s : Bridge W) → Fits P D s → Leaves (Fits P D) (get_pending env s)
  unfolding get_pending
  get_pending-Fits s h =
      let k = all_kept env P D kept in
      Leaves->>= (Fits P D) (check_elrond_client_availability env) _ s
        (check_elrond_client_availability-Fits env P D k s h)
        λ e t h.
          Leaves->>= (Fits P D) (report_unavailable env e "elrond client unavailable") _ t
            (report_unavailable-Fits e "elrond client unavailable" t h)
            λ _ t h.
              Leaves->>= (Fits P D) (check_ethereum_client_availability env) _ t
                (check_ethereum_client_availability-Fits env P D k t h)
                λ e t h.
                  Leaves->>= (Fits P D) (report_unavailable env e "ethereum client unavailable") _ t
                    (report_unavailable-Fits e "ethereum client unavailable" t h)
                    λ _ t h. fetch_pending-Fits t h

  propose_transfer-Fits : (s : Bridge W) → Fits P D s → Leaves (Fits P D) (propose_transfer env s)
  unfolding propose_transfer
  propose_transfer-Fits s h =
      let k = all_kept env P D kept in
      grind (
        arith,
        print_info-Fits env P D k,
        get_stored_batch-Fits env P D k,
        was_transfer_proposed_on_elrond-Fits env P D k,
        my_turn_as_leader-Fits env P D k,
        propose_transfer_on_elrond-Fits env P D k,
      )

  sign_stored_action-Fits :
      (s : Bridge W) → Fits P D s → Leaves (Fits P D) (sign_stored_action env s)
  unfolding sign_stored_action
  sign_stored_action-Fits s h =
      let k = all_kept env P D kept in
      grind (
        arith,
        print_info-Fits env P D k,
        was_action_signed_on_elrond-Fits env P D k,
        sign_action_on_elrond-Fits env P D k,
      )

  sign_proposed_transfer-Fits :
      (s : Bridge W) → Fits P D s → Leaves (Fits P D) (sign_proposed_transfer env s)
  unfolding sign_proposed_transfer
  sign_proposed_transfer-Fits s h =
      let k = all_kept env P D kept in
      grind (
        arith,
        print_info-Fits env P D k,
        get_stored_batch-Fits env P D k,
        get_and_store_action_id_for_propose_transfer_on_elrond-Fits env P D k,
        sign_stored_action-Fits,
      )

  wait_for_quorum-Fits : (s : Bridge W) → Fits P D s → Leaves (Fits P D) (wait_for_quorum env s)
  unfolding wait_for_quorum
  wait_for_quorum-Fits s h =
      let k = all_kept env P D kept in
      grind (
        arith,
        print_info-Fits env P D k,
        process_max_quorum_retries_on_elrond-Fits env P D k,
        process_quorum_reached_on_elrond-Fits env P D k,
      )

  perform_action_id-Fits : (s : Bridge W) → Fits P D s → Leaves (Fits P D) (perform_action_id env s)
  unfolding perform_action_id
  perform_action_id-Fits s h =
      let k = all_kept env P D kept in
      grind (
        arith,
        print_info-Fits env P D k,
        was_action_performed_on_elrond-Fits env P D k,
        my_turn_as_leader-Fits env P D k,
        perform_action_on_elrond-Fits env P D k,
      )

  -- What every call of the clients keeps, every step of the half-bridge keeps.
  pub eth_execute-Fits :
      (step : Step) (s : Bridge W) → Fits P D s → Leaves (Fits P D) (execute env step s)
  unfolding execute
  eth_execute-Fits getting_pending_batch_from_ethereum s h = get_pending-Fits s h
  eth_execute-Fits proposing_transfer_on_elrond s h = propose_transfer-Fits s h
  eth_execute-Fits signing_proposed_transfer_on_elrond s h = sign_proposed_transfer-Fits s h
  eth_execute-Fits waiting_for_quorum s h = wait_for_quorum-Fits s h
  eth_execute-Fits performing_action_id s h = perform_action_id-Fits s h
