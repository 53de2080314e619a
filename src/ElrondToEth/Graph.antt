-- ===== src/ElrondToEth/Graph.antt =====
-- The diagram of the steps of the Elrond to Ethereum half-bridge.
use elrond_eth_bridge.Common.{◌≡◌, ◌≢◌, some, arith}
use elrond_eth_bridge.Batch.{TransferBatch}
use elrond_eth_bridge.Bridge.Clients.{Environment}
use elrond_eth_bridge.Bridge.Monad.{Bridge}
use elrond_eth_bridge.Bridge.Executor.{
  print_info, my_turn_as_leader, get_batch_from_elrond, store_batch_from_elrond, get_stored_batch,
  get_and_store_action_id_for_propose_set_status_from_elrond,
  process_max_retries_on_was_transfer_proposed_on_elrond,
  reset_retries_on_was_transfer_proposed_on_elrond, was_set_status_proposed_on_elrond,
  propose_set_status_on_elrond, was_action_signed_on_elrond, sign_action_on_elrond,
  process_quorum_reached_on_elrond, was_transfer_performed_on_ethereum,
  was_action_performed_on_elrond, perform_action_on_elrond, resolve_new_deposits_statuses,
  process_max_quorum_retries_on_elrond, reset_retries_count_on_elrond, sign_transfer_on_ethereum,
  perform_transfer_on_ethereum, process_quorum_reached_on_ethereum,
  process_max_quorum_retries_on_ethereum, reset_retries_count_on_ethereum,
  clear_stored_p2p_signatures_for_ethereum, validate_batch, check_elrond_client_availability,
  check_ethereum_client_availability,
}
use elrond_eth_bridge.ElrondToEth.{
  Step, getting_pending_batch_from_elrond, signing_proposed_transfer_on_ethereum,
  waiting_for_quorum_on_transfer, performing_transfer, waiting_transfer_confirmation,
  resolving_set_status_on_elrond, proposing_set_status_on_elrond,
  signing_proposed_set_status_on_elrond, waiting_for_quorum_on_set_status, performing_set_status,
  get_pending, store_and_validate, sign_proposed_transfer, wait_for_quorum_on_transfer,
  perform_transfer, wait_transfer_confirmation, store_statuses, resolve_statuses,
  resolve_set_status, propose_set_status, sign_proposed_set_status, wait_for_quorum_on_set_status,
  perform_set_status, execute,
}

-- Any step but the wait for the confirmation may go back to the first one; the others follow the
-- order of the flow, a transfer that was performed is reported, and four steps wait.
infix 40 ◌⟶◌
pub data ◌⟶◌ : Step → Step → Type 0 where
  start_over :
      {step : Step}
      → step ≢ waiting_transfer_confirmation
      → step ⟶ getting_pending_batch_from_elrond
  fetched : getting_pending_batch_from_elrond ⟶ signing_proposed_transfer_on_ethereum
  already_performed : getting_pending_batch_from_elrond ⟶ resolving_set_status_on_elrond
  signed : signing_proposed_transfer_on_ethereum ⟶ waiting_for_quorum_on_transfer
  no_quorum : waiting_for_quorum_on_transfer ⟶ waiting_for_quorum_on_transfer
  agreed : waiting_for_quorum_on_transfer ⟶ performing_transfer
  performed : performing_transfer ⟶ resolving_set_status_on_elrond
  unconfirmed : performing_transfer ⟶ waiting_transfer_confirmation
  waited : waiting_transfer_confirmation ⟶ performing_transfer
  resolved : resolving_set_status_on_elrond ⟶ proposing_set_status_on_elrond
  not_leader : proposing_set_status_on_elrond ⟶ proposing_set_status_on_elrond
  proposed : proposing_set_status_on_elrond ⟶ signing_proposed_set_status_on_elrond
  signed_status : signing_proposed_set_status_on_elrond ⟶ waiting_for_quorum_on_set_status
  no_quorum_on_status : waiting_for_quorum_on_set_status ⟶ waiting_for_quorum_on_set_status
  agreed_on_status : waiting_for_quorum_on_set_status ⟶ performing_set_status
  not_set : performing_set_status ⟶ performing_set_status

ruleset edges = (
  start_over, fetched, already_performed, signed, no_quorum, agreed, performed, unconfirmed, waited,
  resolved, not_leader, proposed, signed_status, no_quorum_on_status, agreed_on_status, not_set,
)

module _ {W : Type 0} (env : Environment W) where
  store_and_validate-⟶ :
      (b : TransferBatch) (s t : Bridge W) {next : Step}
      → store_and_validate env b s ≡ some (next, t)
      → getting_pending_batch_from_elrond ⟶ next
  unfolding store_and_validate store_batch_from_elrond validate_batch
      was_transfer_performed_on_ethereum print_info
  store_and_validate-⟶ b s t h = grind (arith, edges)

  get_pending-⟶ :
      (s t : Bridge W) {next : Step}
      → get_pending env s ≡ some (next, t)
      → getting_pending_batch_from_elrond ⟶ next
  unfolding get_pending check_elrond_client_availability check_ethereum_client_availability
      reset_retries_count_on_ethereum reset_retries_count_on_elrond
      reset_retries_on_was_transfer_proposed_on_elrond get_batch_from_elrond print_info
  get_pending-⟶ s t h = grind (arith, edges, store_and_validate-⟶)

  sign_proposed_transfer-⟶ :
      (s t : Bridge W) {next : Step}
      → sign_proposed_transfer env s ≡ some (next, t)
      → signing_proposed_transfer_on_ethereum ⟶ next
  unfolding sign_proposed_transfer get_stored_batch sign_transfer_on_ethereum print_info
  sign_proposed_transfer-⟶ s t h = grind (arith, edges)

  wait_for_quorum_on_transfer-⟶ :
      (s t : Bridge W) {next : Step}
      → wait_for_quorum_on_transfer env s ≡ some (next, t)
      → waiting_for_quorum_on_transfer ⟶ next
  unfolding wait_for_quorum_on_transfer process_max_quorum_retries_on_ethereum
      process_quorum_reached_on_ethereum print_info
  wait_for_quorum_on_transfer-⟶ s t h = grind (arith, edges)

  perform_transfer-⟶ :
      (s t : Bridge W) {next : Step}
      → perform_transfer env s ≡ some (next, t)
      → performing_transfer ⟶ next
  unfolding perform_transfer was_transfer_performed_on_ethereum my_turn_as_leader
      perform_transfer_on_ethereum print_info
  perform_transfer-⟶ s t h = grind (arith, edges)

  wait_transfer_confirmation-⟶ :
      (s t : Bridge W) {next : Step}
      → wait_transfer_confirmation env s ≡ some (next, t)
      → waiting_transfer_confirmation ⟶ next
  unfolding wait_transfer_confirmation
  wait_transfer_confirmation-⟶ s t h = grind (arith, edges)

  resolve_set_status-⟶ :
      (s t : Bridge W) {next : Step}
      → resolve_set_status env s ≡ some (next, t)
      → resolving_set_status_on_elrond ⟶ next
  unfolding resolve_set_status clear_stored_p2p_signatures_for_ethereum get_stored_batch
      get_batch_from_elrond print_info resolve_statuses store_statuses resolve_new_deposits_statuses
  resolve_set_status-⟶ s t h = grind (arith, edges)

  propose_set_status-⟶ :
      (s t : Bridge W) {next : Step}
      → propose_set_status env s ≡ some (next, t)
      → proposing_set_status_on_elrond ⟶ next
  unfolding propose_set_status get_stored_batch
      process_max_retries_on_was_transfer_proposed_on_elrond was_set_status_proposed_on_elrond
      my_turn_as_leader propose_set_status_on_elrond print_info
  propose_set_status-⟶ s t h = grind (arith, edges)

  sign_proposed_set_status-⟶ :
      (s t : Bridge W) {next : Step}
      → sign_proposed_set_status env s ≡ some (next, t)
      → signing_proposed_set_status_on_elrond ⟶ next
  unfolding sign_proposed_set_status get_stored_batch
      get_and_store_action_id_for_propose_set_status_from_elrond was_action_signed_on_elrond
      sign_action_on_elrond print_info
  sign_proposed_set_status-⟶ s t h = grind (arith, edges)

  wait_for_quorum_on_set_status-⟶ :
      (s t : Bridge W) {next : Step}
      → wait_for_quorum_on_set_status env s ≡ some (next, t)
      → waiting_for_quorum_on_set_status ⟶ next
  unfolding wait_for_quorum_on_set_status process_max_quorum_retries_on_elrond
      process_quorum_reached_on_elrond print_info
  wait_for_quorum_on_set_status-⟶ s t h = grind (arith, edges)

  perform_set_status-⟶ :
      (s t : Bridge W) {next : Step}
      → perform_set_status env s ≡ some (next, t)
      → performing_set_status ⟶ next
  unfolding perform_set_status was_action_performed_on_elrond my_turn_as_leader
      perform_action_on_elrond print_info
  perform_set_status-⟶ s t h = grind (arith, edges)

  -- The step that a step returns, if it does not panic, is one that the diagram allows.
  pub elrond_execute-⟶ :
      (step next : Step) (s t : Bridge W) → execute env step s ≡ some (next, t) → step ⟶ next
  unfolding execute
  elrond_execute-⟶ getting_pending_batch_from_elrond next s t h = get_pending-⟶ s t h
  elrond_execute-⟶ signing_proposed_transfer_on_ethereum next s t h = sign_proposed_transfer-⟶ s t h
  elrond_execute-⟶ waiting_for_quorum_on_transfer next s t h = wait_for_quorum_on_transfer-⟶ s t h
  elrond_execute-⟶ performing_transfer next s t h = perform_transfer-⟶ s t h
  elrond_execute-⟶ waiting_transfer_confirmation next s t h = wait_transfer_confirmation-⟶ s t h
  elrond_execute-⟶ resolving_set_status_on_elrond next s t h = resolve_set_status-⟶ s t h
  elrond_execute-⟶ proposing_set_status_on_elrond next s t h = propose_set_status-⟶ s t h
  elrond_execute-⟶ signing_proposed_set_status_on_elrond next s t h =
      sign_proposed_set_status-⟶ s t h
  elrond_execute-⟶ waiting_for_quorum_on_set_status next s t h =
      wait_for_quorum_on_set_status-⟶ s t h
  elrond_execute-⟶ performing_set_status next s t h = perform_set_status-⟶ s t h
