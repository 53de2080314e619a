-- ===== src/ElrondToEth/Kept.antt =====
-- The steps of bridges/ethElrond/steps/elrondToEth keep what the clients keep.
use elrond_eth_bridge.Common.{ℕ, String, Option, none, some, List, [], ◌∷◌, Result, ok, err, arith}
use elrond_eth_bridge.Batch.{Bytes, DepositTransfer, TransferBatch}
use elrond_eth_bridge.Bridge.Clients.{log_debug, log_error, Environment}
use elrond_eth_bridge.Bridge.Monad.{Bridge, M, ◌>>=◌, ◌>>◌, on_error, Leaves, Leaves->>=}
use elrond_eth_bridge.Bridge.Kept.{AllKept, all_kept, Fits}
use elrond_eth_bridge.Bridge.Executor.{
  print_info, print_and_return, get_batch_from_elrond, get_stored_batch,
  resolve_new_deposits_statuses, clear_stored_p2p_signatures_for_ethereum,
  reset_retries_count_on_elrond, reset_retries_count_on_ethereum,
  reset_retries_on_was_transfer_proposed_on_elrond, check_elrond_client_availability,
  check_ethereum_client_availability,
}
use elrond_eth_bridge.Bridge.Executor.Kept.{
  check_elrond_client_availability-Fits, check_ethereum_client_availability-Fits,
  clear_stored_p2p_signatures_for_ethereum-Fits,
  get_and_store_action_id_for_propose_set_status_from_elrond-Fits, get_batch_from_elrond-Fetched,
  get_stored_batch-Fits, my_turn_as_leader-Fits, perform_action_on_elrond-Fits,
  perform_transfer_on_ethereum-Fits, print_info-Fits, process_max_quorum_retries_on_elrond-Fits,
  process_max_quorum_retries_on_ethereum-Fits,
  process_max_retries_on_was_transfer_proposed_on_elrond-Fits,
  process_quorum_reached_on_elrond-Fits, process_quorum_reached_on_ethereum-Fits,
  propose_set_status_on_elrond-Fits, reset_retries_count_on_elrond-Fits,
  reset_retries_count_on_ethereum-Fits, reset_retries_on_was_transfer_proposed_on_elrond-Fits,
  resolve_new_deposits_statuses-Fits, sign_action_on_elrond-Fits, sign_transfer_on_ethereum-Fits,
  store_batch_from_elrond-Fits, validate_batch-Fits, wait_and_return_final_batch_statuses-Fits,
  wait_for_transfer_confirmation-Fits, was_action_performed_on_elrond-Fits,
  was_action_signed_on_elrond-Fits, was_set_status_proposed_on_elrond-Fits,
  was_transfer_performed_on_ethereum-Fits,
}
use elrond_eth_bridge.ElrondToEth.{
  first_step, report_unavailable, set_statuses, Step, getting_pending_batch_from_elrond,
  signing_proposed_transfer_on_ethereum, waiting_for_quorum_on_transfer, performing_transfer,
  waiting_transfer_confirmation, resolving_set_status_on_elrond, proposing_set_status_on_elrond,
  signing_proposed_set_status_on_elrond, waiting_for_quorum_on_set_status, performing_set_status,
  get_pending, sign_proposed_transfer, wait_for_quorum_on_transfer, perform_transfer,
  wait_transfer_confirmation, resolve_set_status, propose_set_status, sign_proposed_set_status,
  wait_for_quorum_on_set_status, perform_set_status, check_performed, store_and_validate,
  store_statuses, resolve_statuses, sign_stored_action, execute,
}

module _ {W : Type 0} (env : Environment W) (P : W → Type 0) (D : List DepositTransfer → Type 0)
    (kept : AllKept env P D) where
  check_performed-Fits : (s : Bridge W) → Fits P D s → Leaves (Fits P D) (check_performed env s)
  unfolding check_performed
  check_performed-Fits s h =
      let k = all_kept env P D kept in
      grind (arith, print_info-Fits env P D k, was_transfer_performed_on_ethereum-Fits env P D k)

  sign_proposed_transfer-Fits :
      (s : Bridge W) → Fits P D s → Leaves (Fits P D) (sign_proposed_transfer env s)
  unfolding sign_proposed_transfer
  sign_proposed_transfer-Fits s h =
      let k = all_kept env P D kept in
      grind (
        arith,
        print_info-Fits env P D k,
        get_stored_batch-Fits env P D k,
        sign_transfer_on_ethereum-Fits env P D k,
      )

  wait_for_quorum_on_transfer-Fits :
      (s : Bridge W) → Fits P D s → Leaves (Fits P D) (wait_for_quorum_on_transfer env s)
  unfolding wait_for_quorum_on_transfer
  wait_for_quorum_on_transfer-Fits s h =
      let k = all_kept env P D kept in
      grind (
        arith,
        print_info-Fits env P D k,
        process_max_quorum_retries_on_ethereum-Fits env P D k,
        process_quorum_reached_on_ethereum-Fits env P D k,
      )

  perform_transfer-Fits : (s : Bridge W) → Fits P D s → Leaves (Fits P D) (perform_transfer env s)
  unfolding perform_transfer
  perform_transfer-Fits s h =
      let k = all_kept env P D kept in
      grind (
        arith,
        print_info-Fits env P D k,
        was_transfer_performed_on_ethereum-Fits env P D k,
        my_turn_as_leader-Fits env P D k,
        perform_transfer_on_ethereum-Fits env P D k,
      )

  wait_transfer_confirmation-Fits :
      (s : Bridge W) → Fits P D s → Leaves (Fits P D) (wait_transfer_confirmation env s)
  unfolding wait_transfer_confirmation
  wait_transfer_confirmation-Fits s h =
      let k = all_kept env P D kept in
      grind (arith, print_info-Fits env P D k, wait_for_transfer_confirmation-Fits env P D k)

  set_statuses-Fits :
      (statuses : Bytes) (s : Bridge W)
      → Fits P D s
      → Leaves (Fits P D) (set_statuses env statuses s)
  unfolding Fits
  set_statuses-Fits statuses s h = ground arith

  store_statuses-Fits :
      (statuses : Bytes) (n : ℕ) (s : Bridge W)
      → Fits P D s
      → Leaves (Fits P D) (store_statuses env statuses n s)
  unfolding store_statuses
  store_statuses-Fits [] n s h = h
  store_statuses-Fits (x ∷ xs) n s h =
      let k = all_kept env P D kept in
      Leaves->>= (Fits P D) (set_statuses env (x ∷ xs)) _ s (set_statuses-Fits (x ∷ xs) s h)
        λ _ t h.
          Leaves->>= (Fits P D) (resolve_new_deposits_statuses env n) _ t
            (resolve_new_deposits_statuses-Fits env P D k n t h) λ _ u h. h

  resolve_statuses-Fits :
      (b : TransferBatch) (s : Bridge W) → Fits P D s → Leaves (Fits P D) (resolve_statuses env b s)
  unfolding resolve_statuses
  resolve_statuses-Fits b s h =
      let k = all_kept env P D kept in
      grind (
        arith,
        print_info-Fits env P D k,
        wait_and_return_final_batch_statuses-Fits env P D k,
        store_statuses-Fits,
      )

  store_and_validate-Fits :
      (b : TransferBatch) (s : Bridge W)
      → D b.deposits
      → Fits P D s
      → Leaves (Fits P D) (store_and_validate env b s)
  unfolding store_and_validate
  store_and_validate-Fits b s given h =
      let k = all_kept env P D kept in
      grind (
        arith,
        given,
        print_info-Fits env P D k,
        store_batch_from_elrond-Fits env P D k,
        validate_batch-Fits env P D k,
        check_performed-Fits,
      )

  report_unavailable-Fits :
      (r : Result (Unit {0})) (m : String) (s : Bridge W)
      → Fits P D s
      → Leaves (Fits P D) (report_unavailable env r m s)
  report_unavailable-Fits (ok _) m s h = h
  report_unavailable-Fits (err e) m s h =
      print_info-Fits env P D (all_kept env P D kept) log_debug m s h

  -- The end of `get_pending`, from the fetch of the batch.
  abbrev fetch_pending : M W Step
  fetch_pending = do
    fetched ← get_batch_from_elrond env
    on_error fetched (λ _. print_and_return env log_debug "cannot fetch Elrond batch" first_step)
        λ batch. elim batch [
          | none ↦ print_and_return env log_debug "no new batch found on Elrond" first_step
          | some b ↦ store_and_validate env b
        ]

  fetch_pending-Fits : (s : Bridge W) → Fits P D s → Leaves (Fits P D) (fetch_pending s)
  fetch_pending-Fits s h =
      let k = all_kept env P D kept in
      grind (
        arith,
        print_info-Fits env P D k,
        get_batch_from_elrond-Fetched env P D k,
        store_and_validate-Fits,
      )

  -- The middle of `get_pending`, from the resets of the counters.
  abbrev reset_and_fetch : M W Step
  reset_and_fetch = do
    reset_retries_count_on_ethereum env
    reset_retries_count_on_elrond env
    reset_retries_on_was_transfer_proposed_on_elrond env
    fetch_pending

  reset_and_fetch-Fits : (s : Bridge W) → Fits P D s → Leaves (Fits P D) (reset_and_fetch s)
  reset_and_fetch-Fits s h =
      let k = all_kept env P D kept in
      grind (
        arith,
        reset_retries_count_on_ethereum-Fits env P D k,
        reset_retries_count_on_elrond-Fits env P D k,
        reset_retries_on_was_transfer_proposed_on_elrond-Fits env P D k,
        fetch_pending-Fits,
      )

  get_pending-Fits : (s : Bridge W) → Fits P D s → Leaves (Fits P D) (get_pending env s)
  unfolding get_pending
  get_pending-Fits s h =
      let k = all_kept env P D kept in
      Leaves->>= (Fits P D) (check_elrond_client_availability env) _ s
        (check_elrond_client_availability-Fits env P D k s h)
        λ e t h.
          Leaves->>= (Fits P D) (report_unavailable env e "elrond client unavailable") _ t
            (report_unavailable-Fits e "elrond client unavailable" t h)
            λ _ t h.
              Leaves->>= (Fits P D) (check_ethereum_client_availability env) _ t
                (check_ethereum_client_availability-Fits env P D k t h)
                λ e t h.
                  Leaves->>= (Fits P D) (report_unavailable env e "ethereum client unavailable") _ t
                    (report_unavailable-Fits e "ethereum client unavailable" t h)
                    λ _ t h. reset_and_fetch-Fits t h

  -- The end of `resolve_set_status`, from the fetch of the batch.
  abbrev fetch_and_resolve : M W Step
  fetch_and_resolve = do
    r ← get_batch_from_elrond env
    on_error r (λ _. print_and_return env log_error "error while fetching batch" first_step)
        λ batch. elim batch [
          | none ↦ print_and_return env log_debug "nil batch fetched" first_step
          | some b ↦ resolve_statuses env b
        ]

  fetch_and_resolve-Fits : (s : Bridge W) → Fits P D s → Leaves (Fits P D) (fetch_and_resolve s)
  fetch_and_resolve-Fits s h =
      let k = all_kept env P D kept in
      grind (
        arith,
        print_info-Fits env P D k,
        get_batch_from_elrond-Fetched env P D k,
        resolve_statuses-Fits,
      )

  with_stored-Fits :
      (stored : Option TransferBatch) (s : Bridge W)
      → Fits P D s
      → Leaves (Fits P D) (
          (elim stored as (λ _. M W Step) [
            | none ↦ print_and_return env log_debug "nil batch stored" first_step
            | some _ ↦ fetch_and_resolve
          ])
            s)
  with_stored-Fits none s h =
      Leaves->>= (Fits P D) (print_info env log_debug "nil batch stored") _ s
        (print_info-Fits env P D (all_kept env P D kept) log_debug "nil batch stored" s h)
        λ _ t h. h
  with_stored-Fits (some _) s h = fetch_and_resolve-Fits s h

  resolve_set_status-Fits :
      (s : Bridge W) → Fits P D s → Leaves (Fits P D) (resolve_set_status env s)
  unfolding resolve_set_status
  resolve_set_status-Fits s h =
      let k = all_kept env P D kept in
      Leaves->>= (Fits P D) (clear_stored_p2p_signatures_for_ethereum env) _ s
        (clear_stored_p2p_signatures_for_ethereum-Fits env P D k s h)
        λ _ t h.
          Leaves->>= (Fits P D) (get_stored_batch env) _ t (get_stored_batch-Fits env P D k t h)
            λ stored u h. with_stored-Fits stored u h

  propose_set_status-Fits :
      (s : Bridge W) → Fits P D s → Leaves (Fits P D) (propose_set_status env s)
  unfolding propose_set_status
  propose_set_status-Fits s h =
      let k = all_kept env P D kept in
      grind (
        arith,
        print_info-Fits env P D k,
        get_stored_batch-Fits env P D k,
        process_max_retries_on_was_transfer_proposed_on_elrond-Fits env P D k,
        was_set_status_proposed_on_elrond-Fits env P D k,
        my_turn_as_leader-Fits env P D k,
        propose_set_status_on_elrond-Fits env P D k,
      )

  sign_stored_action-Fits :
      (s : Bridge W) → Fits P D s → Leaves (Fits P D) (sign_stored_action env s)
  unfolding sign_stored_action
  sign_stored_action-Fits s h =
      let k = all_kept env P D kept in
      grind (
        arith,
        print_info-Fits env P D k,
        was_action_signed_on_elrond-Fits env P D k,
        sign_action_on_elrond-Fits env P D k,
      )

  sign_proposed_set_status-Fits :
      (s : Bridge W) → Fits P D s → Leaves (Fits P D) (sign_proposed_set_status env s)
  unfolding sign_proposed_set_status
  sign_proposed_set_status-Fits s h =
      let k = all_kept env P D kept in
      grind (
        arith,
        print_info-Fits env P D k,
        get_stored_batch-Fits env P D k,
        get_and_store_action_id_for_propose_set_status_from_elrond-Fits env P D k,
        sign_stored_action-Fits,
      )

  wait_for_quorum_on_set_status-Fits :
      (s : Bridge W) → Fits P D s → Leaves (Fits P D) (wait_for_quorum_on_set_status env s)
  unfolding wait_for_quorum_on_set_status
  wait_for_quorum_on_set_status-Fits s h =
      let k = all_kept env P D kept in
      grind (
        arith,
        print_info-Fits env P D k,
        process_max_quorum_retries_on_elrond-Fits env P D k,
        process_quorum_reached_on_elrond-Fits env P D k,
      )

  perform_set_status-Fits :
      (s : Bridge W) → Fits P D s → Leaves (Fits P D) (perform_set_status env s)
  unfolding perform_set_status
  perform_set_status-Fits s h =
      let k = all_kept env P D kept in
      grind (
        arith,
        print_info-Fits env P D k,
        was_action_performed_on_elrond-Fits env P D k,
        my_turn_as_leader-Fits env P D k,
        perform_action_on_elrond-Fits env P D k,
      )

  -- What every call of the clients keeps, every step of the half-bridge keeps.
  pub elrond_execute-Fits :
      (step : Step) (s : Bridge W) → Fits P D s → Leaves (Fits P D) (execute env step s)
  unfolding execute
  elrond_execute-Fits getting_pending_batch_from_elrond s h = get_pending-Fits s h
  elrond_execute-Fits signing_proposed_transfer_on_ethereum s h = sign_proposed_transfer-Fits s h
  elrond_execute-Fits waiting_for_quorum_on_transfer s h = wait_for_quorum_on_transfer-Fits s h
  elrond_execute-Fits performing_transfer s h = perform_transfer-Fits s h
  elrond_execute-Fits waiting_transfer_confirmation s h = wait_transfer_confirmation-Fits s h
  elrond_execute-Fits resolving_set_status_on_elrond s h = resolve_set_status-Fits s h
  elrond_execute-Fits proposing_set_status_on_elrond s h = propose_set_status-Fits s h
  elrond_execute-Fits signing_proposed_set_status_on_elrond s h = sign_proposed_set_status-Fits s h
  elrond_execute-Fits waiting_for_quorum_on_set_status s h = wait_for_quorum_on_set_status-Fits s h
  elrond_execute-Fits performing_set_status s h = perform_set_status-Fits s h
