-- ===== src/EthToElrond/Invariant.antt =====
-- What holds of the executor before each step of the Ethereum to Elrond half-bridge.
use elrond_eth_bridge.Common.{◌≡◌, ◌≢◌, true, arith, Elem}
use elrond_eth_bridge.Bridge.Clients.{Environment, IsLawful}
use elrond_eth_bridge.Bridge.Monad.{Bridge, quorum_on_elrond, Returns}
use elrond_eth_bridge.Bridge.Executor.{
  invalid_action_id, print_info, my_turn_as_leader, get_stored_batch,
  get_last_executed_eth_batch_id_from_elrond, verify_last_deposit_nonce_executed_on_ethereum_batch,
  get_and_store_action_id_for_propose_transfer_on_elrond, was_transfer_proposed_on_elrond,
  propose_transfer_on_elrond, was_action_signed_on_elrond, sign_action_on_elrond,
  process_quorum_reached_on_elrond, was_action_performed_on_elrond, perform_action_on_elrond,
  process_max_quorum_retries_on_elrond, reset_retries_count_on_elrond,
  get_and_store_batch_from_ethereum, validate_batch, check_elrond_client_availability,
  check_ethereum_client_availability,
}
use elrond_eth_bridge.Bridge.Protocol.{IsDue, Stored, FollowsRules}
use elrond_eth_bridge.EthToElrond.{
  Step, getting_pending_batch_from_ethereum, proposing_transfer_on_elrond,
  signing_proposed_transfer_on_elrond, waiting_for_quorum, performing_action_id, get_pending,
  propose_transfer, sign_proposed_transfer, wait_for_quorum, perform_action_id, execute,
}

module _ {W : Type 0} (env : Environment W) where
  -- Every step but the first has a batch, which is due; an action that is waited for or performed
  -- has a valid ID, and the quorum was reached for the action that is performed; the calls so far
  -- follow the rules.
  pub record Inv (step : Step) (s : Bridge W) : Type 0 where
    pub batch_due :
        step ≢ getting_pending_batch_from_ethereum → Stored (λ b. IsDue b s.calls) s.executor.batch
    pub action_waited : step ≡ waiting_for_quorum → s.executor.action_id ≢ invalid_action_id
    pub action_agreed :
        step ≡ performing_action_id
        → (s.executor.action_id ≢ invalid_action_id)
          × Elem (quorum_on_elrond s.executor.action_id true) s.calls
    pub rules : FollowsRules env.ethereum_client.generate_message_hash s.calls

  wait_for_quorum-Inv :
      (s : Bridge W) → Inv waiting_for_quorum s → Returns Inv (wait_for_quorum env s)
  unfolding wait_for_quorum process_max_quorum_retries_on_elrond process_quorum_reached_on_elrond
      print_info
  wait_for_quorum-Inv s h = ground arith

  propose_transfer-Inv :
      (s : Bridge W) → Inv proposing_transfer_on_elrond s → Returns Inv (propose_transfer env s)
  unfolding propose_transfer get_stored_batch was_transfer_proposed_on_elrond my_turn_as_leader
      propose_transfer_on_elrond print_info
  propose_transfer-Inv s h = ground arith

  sign_proposed_transfer-Inv :
      (s : Bridge W)
      → Inv signing_proposed_transfer_on_elrond s
      → Returns Inv (sign_proposed_transfer env s)
  unfolding sign_proposed_transfer get_stored_batch
      get_and_store_action_id_for_propose_transfer_on_elrond sign_action_on_elrond
      was_action_signed_on_elrond print_info
  sign_proposed_transfer-Inv s h = ground arith

  perform_action_id-Inv :
      (s : Bridge W) → Inv performing_action_id s → Returns Inv (perform_action_id env s)
  unfolding perform_action_id was_action_performed_on_elrond my_turn_as_leader
      perform_action_on_elrond print_info
  perform_action_id-Inv s h = ground arith

  get_pending-Inv :
      (s : Bridge W)
      → IsLawful env
      → Inv getting_pending_batch_from_ethereum s
      → Returns Inv (get_pending env s)
  unfolding get_pending get_stored_batch validate_batch
      verify_last_deposit_nonce_executed_on_ethereum_batch print_info
      check_elrond_client_availability check_ethereum_client_availability
      reset_retries_count_on_elrond get_last_executed_eth_batch_id_from_elrond
      get_and_store_batch_from_ethereum
  get_pending-Inv s law h = grind (arith, law.get_batch_some)

  -- Whatever the clients answer, a step of the half-bridge does not panic, and the invariant holds
  -- of the step that it returns and of the state that it leaves: the next step has a batch that is
  -- due, the ID of the action is valid while the quorum is awaited and while the action is
  -- performed, the quorum was reached for the action that is performed, and every call so far
  -- followed the rules of the bridge. The clients return no nil batch without an error.
  pub eth_execute-Inv :
      (step : Step) (s : Bridge W) → IsLawful env → Inv step s → Returns Inv (execute env step s)
  unfolding execute
  eth_execute-Inv getting_pending_batch_from_ethereum s law h = get_pending-Inv s law h
  eth_execute-Inv proposing_transfer_on_elrond s law h = propose_transfer-Inv s h
  eth_execute-Inv signing_proposed_transfer_on_elrond s law h = sign_proposed_transfer-Inv s h
  eth_execute-Inv waiting_for_quorum s law h = wait_for_quorum-Inv s h
  eth_execute-Inv performing_action_id s law h = perform_action_id-Inv s h
