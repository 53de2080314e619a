-- ===== src/ElrondToEth/Tests.antt =====
-- Runs of the Elrond to Ethereum half-bridge (bridges/ethElrond/steps/elrondToEth) on the example
-- environment, and its theorems at concrete inputs.
use elrond_eth_bridge.Common.{
  ℕ, ◌+◌, ◌≤◌, ◌≡◌, refl, true, false, some, [], ◌∷◌, ok, All, length, arith,
}
use elrond_eth_bridge.Bridge.Monad.{
  Bridge, Returns, my_turn, was_set_status_proposed, quorum_on_elrond, quorum_on_ethereum,
}
use elrond_eth_bridge.Bridge.Executor.{
  print_info, my_turn_as_leader, get_stored_batch, process_quorum_reached_on_ethereum,
  process_max_quorum_retries_on_ethereum, process_quorum_reached_on_elrond,
  process_max_quorum_retries_on_elrond, process_max_retries_on_was_transfer_proposed_on_elrond,
  was_set_status_proposed_on_elrond,
}
use elrond_eth_bridge.Bridge.Protocol.{FollowsRules}
use elrond_eth_bridge.Bridge.Example.{
  batch, environment, environment-IsLawful, quiet, executor, start,
}
use elrond_eth_bridge.StateMachine.{StateMachine, run}
use elrond_eth_bridge.StateMachine.Run.{Holds}
use elrond_eth_bridge.ElrondToEth.{
  Step, waiting_for_quorum_on_transfer, performing_transfer, proposing_set_status_on_elrond,
  waiting_for_quorum_on_set_status, Step-discrete, wait_for_quorum_on_transfer, propose_set_status,
  wait_for_quorum_on_set_status, resolve_statuses, execute,
}
use elrond_eth_bridge.ElrondToEth.Graph.{◌⟶◌, elrond_execute-⟶}
use elrond_eth_bridge.ElrondToEth.Waiting.{
  transfer_wait_bounded, proposal_wait_bounded, status_wait_bounded,
}
use elrond_eth_bridge.ElrondToEth.Statuses.{Stores, resolve_statuses-Stores}
use elrond_eth_bridge.ElrondToEth.Machine.{create_state_machine, note_step, elrond_run_safe}

elrond_run_safe_example :
    (sm : StateMachine Step (Bridge ℕ)) × (create_state_machine environment ≡ ok sm)
    × Holds
        (λ out.
          All (λ r. r ≡ ok tt) out.0
          × (length out.0 ≡ 7)
          × FollowsRules environment.ethereum_client.generate_message_hash out.2.calls)
        (run Step-discrete (note_step environment) 7 sm start)
elrond_run_safe_example = elrond_run_safe environment 7 start environment-IsLawful refl

abbrev agreed : Bridge ℕ
agreed = record start {
  executor = record executor { quorum_retries_on_ethereum = 2 };
  world = 1;
  calls = quorum_on_ethereum (8 ∷ []) true ∷ [];
}

wait_on_transfer_run :
    wait_for_quorum_on_transfer environment start ≡ some (performing_transfer, agreed)
unfolding wait_for_quorum_on_transfer process_max_quorum_retries_on_ethereum
    process_quorum_reached_on_ethereum print_info
wait_on_transfer_run = refl

elrond_execute-⟶_example : waiting_for_quorum_on_transfer ⟶ performing_transfer
unfolding execute
elrond_execute-⟶_example =
    elrond_execute-⟶ environment waiting_for_quorum_on_transfer performing_transfer start agreed
      wait_on_transfer_run

abbrev still_waiting : Bridge ℕ
still_waiting = record start {
  executor = record executor { quorum_retries_on_ethereum = 2 };
  world = 1;
  calls = quorum_on_ethereum (8 ∷ []) false ∷ [];
}

wait_on_transfer_again :
    wait_for_quorum_on_transfer quiet start ≡ some (waiting_for_quorum_on_transfer, still_waiting)
unfolding wait_for_quorum_on_transfer process_max_quorum_retries_on_ethereum
    process_quorum_reached_on_ethereum print_info
wait_on_transfer_again = refl

transfer_wait_bounded_example : 1 + 1 ≤ 3
transfer_wait_bounded_example =
    transfer_wait_bounded quiet 0 start (omega arith) (still_waiting, wait_on_transfer_again, tt)

abbrev not_proposed : Bridge ℕ
not_proposed = record start {
  executor = record executor { retries_on_was_proposed = 2 };
  world = 2;
  calls = my_turn false ∷ was_set_status_proposed batch false ∷ [];
}

propose_set_status_again :
    propose_set_status quiet start ≡ some (proposing_set_status_on_elrond, not_proposed)
unfolding propose_set_status get_stored_batch process_max_retries_on_was_transfer_proposed_on_elrond
    was_set_status_proposed_on_elrond my_turn_as_leader print_info
propose_set_status_again = refl

proposal_wait_bounded_example : 1 + 1 ≤ 3
proposal_wait_bounded_example =
    proposal_wait_bounded quiet 0 start (omega arith) (not_proposed, propose_set_status_again, tt)

abbrev not_agreed : Bridge ℕ
not_agreed = record start {
  executor = record executor { quorum_retries_on_elrond = 2 };
  world = 1;
  calls = quorum_on_elrond 3 false ∷ [];
}

wait_on_set_status_again :
    wait_for_quorum_on_set_status quiet start ≡ some (waiting_for_quorum_on_set_status, not_agreed)
unfolding wait_for_quorum_on_set_status process_max_quorum_retries_on_elrond
    process_quorum_reached_on_elrond print_info
wait_on_set_status_again = refl

status_wait_bounded_example : 1 + 1 ≤ 3
status_wait_bounded_example =
    status_wait_bounded quiet 0 start (omega arith) (not_agreed, wait_on_set_status_again, tt)

resolve_statuses-Stores_example :
    Returns (Stores environment batch 2 executor []) (resolve_statuses environment batch start)
resolve_statuses-Stores_example = resolve_statuses-Stores environment batch batch start refl
