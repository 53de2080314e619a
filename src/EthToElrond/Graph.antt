-- ===== src/EthToElrond/Graph.antt =====
-- The diagram of the steps of the Ethereum to Elrond half-bridge.
use elrond_eth_bridge.Common.{◌≡◌, some, arith}
use elrond_eth_bridge.Bridge.Clients.{Environment}
use elrond_eth_bridge.Bridge.Monad.{Bridge}
use elrond_eth_bridge.Bridge.Executor.{
  print_info, my_turn_as_leader, get_stored_batch, get_last_executed_eth_batch_id_from_elrond,
  verify_last_deposit_nonce_executed_on_ethereum_batch,
  get_and_store_action_id_for_propose_transfer_on_elrond, was_transfer_proposed_on_elrond,
  propose_transfer_on_elrond, was_action_signed_on_elrond, sign_action_on_elrond,
  process_quorum_reached_on_elrond, was_action_performed_on_elrond, perform_action_on_elrond,
  process_max_quorum_retries_on_elrond, reset_retries_count_on_elrond,
  get_and_store_batch_from_ethereum, validate_batch, check_elrond_client_availability,
  check_ethereum_client_availability,
}
use elrond_eth_bridge.EthToElrond.{
  Step, getting_pending_batch_from_ethereum, proposing_transfer_on_elrond,
  signing_proposed_transfer_on_elrond, waiting_for_quorum, performing_action_id, get_pending,
  propose_transfer, sign_proposed_transfer, wait_for_quorum, perform_action_id, execute,
}

-- Any step may go back to the first one; the others follow the order of the flow, and three wait.
infix 40 ◌⟶◌
pub data ◌⟶◌ : Step → Step → Type 0 where
  start_over : {step : Step} → step ⟶ getting_pending_batch_from_ethereum
  fetched : getting_pending_batch_from_ethereum ⟶ proposing_transfer_on_elrond
  not_leader : proposing_transfer_on_elrond ⟶ proposing_transfer_on_elrond
  proposed : proposing_transfer_on_elrond ⟶ signing_proposed_transfer_on_elrond
  signed : signing_proposed_transfer_on_elrond ⟶ waiting_for_quorum
  no_quorum : waiting_for_quorum ⟶ waiting_for_quorum
  agreed : waiting_for_quorum ⟶ performing_action_id
  not_performed : performing_action_id ⟶ performing_action_id

ruleset edges =
    (start_over, fetched, not_leader, proposed, signed, no_quorum, agreed, not_performed)

module _ {W : Type 0} (env : Environment W) where
  get_pending-⟶ :
      (s t : Bridge W) {next : Step}
      → get_pending env s ≡ some (next, t)
      → getting_pending_batch_from_ethereum ⟶ next
  unfolding get_pending get_stored_batch validate_batch
      verify_last_deposit_nonce_executed_on_ethereum_batch print_info
      check_elrond_client_availability check_ethereum_client_availability
      reset_retries_count_on_elrond get_last_executed_eth_batch_id_from_elrond
      get_and_store_batch_from_ethereum
  get_pending-⟶ s t h = grind (arith, edges)

  propose_transfer-⟶ :
      (s t : Bridge W) {next : Step}
      → propose_transfer env s ≡ some (next, t)
      → proposing_transfer_on_elrond ⟶ next
  unfolding propose_transfer get_stored_batch was_transfer_proposed_on_elrond my_turn_as_leader
      propose_transfer_on_elrond print_info
  propose_transfer-⟶ s t h = grind (arith, edges)

  sign_proposed_transfer-⟶ :
      (s t : Bridge W) {next : Step}
      → sign_proposed_transfer env s ≡ some (next, t)
      → signing_proposed_transfer_on_elrond ⟶ next
  unfolding sign_proposed_transfer get_stored_batch
      get_and_store_action_id_for_propose_transfer_on_elrond sign_action_on_elrond
      was_action_signed_on_elrond print_info
  sign_proposed_transfer-⟶ s t h = grind (arith, edges)

  wait_for_quorum-⟶ :
      (s t : Bridge W) {next : Step}
      → wait_for_quorum env s ≡ some (next, t)
      → waiting_for_quorum ⟶ next
  unfolding wait_for_quorum process_max_quorum_retries_on_elrond process_quorum_reached_on_elrond
      print_info
  wait_for_quorum-⟶ s t h = grind (arith, edges)

  perform_action_id-⟶ :
      (s t : Bridge W) {next : Step}
      → perform_action_id env s ≡ some (next, t)
      → performing_action_id ⟶ next
  unfolding perform_action_id was_action_performed_on_elrond my_turn_as_leader
      perform_action_on_elrond print_info
  perform_action_id-⟶ s t h = grind (arith, edges)

  -- The step that a step returns, if it does not panic, is one that the diagram allows.
  pub eth_execute-⟶ :
      (step next : Step) (s t : Bridge W) → execute env step s ≡ some (next, t) → step ⟶ next
  unfolding execute
  eth_execute-⟶ getting_pending_batch_from_ethereum next s t h = get_pending-⟶ s t h
  eth_execute-⟶ proposing_transfer_on_elrond next s t h = propose_transfer-⟶ s t h
  eth_execute-⟶ signing_proposed_transfer_on_elrond next s t h = sign_proposed_transfer-⟶ s t h
  eth_execute-⟶ waiting_for_quorum next s t h = wait_for_quorum-⟶ s t h
  eth_execute-⟶ performing_action_id next s t h = perform_action_id-⟶ s t h
