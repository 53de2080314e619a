-- ===== src/EthToElrond/Tests.antt =====
-- Runs of the Ethereum to Elrond half-bridge (bridges/ethElrond/steps/ethToElrond) on the example
-- environment, and its theorems at concrete inputs.
use elrond_eth_bridge.Common.{
  ℕ, ◌+◌, ◌≤◌, ◌≡◌, refl, true, false, some, [], ◌∷◌, ok, All, length, arith,
}
use elrond_eth_bridge.Bridge.Monad.{Bridge, Returns, quorum_on_elrond}
use elrond_eth_bridge.Bridge.Executor.{
  print_info, process_quorum_reached_on_elrond, process_max_quorum_retries_on_elrond,
}
use elrond_eth_bridge.Bridge.Protocol.{FollowsRules}
use elrond_eth_bridge.Bridge.Example.{environment, environment-IsLawful, quiet, executor, start}
use elrond_eth_bridge.StateMachine.{StateMachine, run}
use elrond_eth_bridge.StateMachine.Run.{Holds}
use elrond_eth_bridge.EthToElrond.{
  Step, getting_pending_batch_from_ethereum, waiting_for_quorum, performing_action_id,
  Step-discrete, wait_for_quorum, execute,
}
use elrond_eth_bridge.EthToElrond.Invariant.{Inv, eth_execute-Inv}
use elrond_eth_bridge.EthToElrond.Graph.{◌⟶◌, eth_execute-⟶}
use elrond_eth_bridge.EthToElrond.Waiting.{eth_quorum_wait_bounded}
use elrond_eth_bridge.EthToElrond.Machine.{create_state_machine, note_step, eth_run_safe}

eth_run_safe_example :
    (sm : StateMachine Step (Bridge ℕ)) × (create_state_machine environment ≡ ok sm)
    × Holds
        (λ out.
          All (λ r. r ≡ ok tt) out.0
          × (length out.0 ≡ 6)
          × FollowsRules environment.ethereum_client.generate_message_hash out.2.calls)
        (run Step-discrete (note_step environment) 6 sm start)
eth_run_safe_example = eth_run_safe environment 6 start environment-IsLawful refl

first-Inv : Inv environment getting_pending_batch_from_ethereum start
first-Inv = ground arith

eth_execute-Inv_example :
    Returns (Inv environment) (execute environment getting_pending_batch_from_ethereum start)
eth_execute-Inv_example =
    eth_execute-Inv environment getting_pending_batch_from_ethereum start environment-IsLawful
      first-Inv

abbrev waited : Bridge ℕ
waited = record start {
  executor = record executor { quorum_retries_on_elrond = 2 };
  world = 1;
  calls = quorum_on_elrond 3 true ∷ [];
}

wait_for_quorum_run : wait_for_quorum environment start ≡ some (performing_action_id, waited)
unfolding wait_for_quorum process_max_quorum_retries_on_elrond process_quorum_reached_on_elrond
    print_info
wait_for_quorum_run = refl

eth_execute-⟶_example : waiting_for_quorum ⟶ performing_action_id
unfolding execute
eth_execute-⟶_example =
    eth_execute-⟶ environment waiting_for_quorum performing_action_id start waited
      wait_for_quorum_run

abbrev still_waiting : Bridge ℕ
still_waiting = record start {
  executor = record executor { quorum_retries_on_elrond = 2 };
  world = 1;
  calls = quorum_on_elrond 3 false ∷ [];
}

wait_for_quorum_again : wait_for_quorum quiet start ≡ some (waiting_for_quorum, still_waiting)
unfolding wait_for_quorum process_max_quorum_retries_on_elrond process_quorum_reached_on_elrond
    print_info
wait_for_quorum_again = refl

eth_quorum_wait_bounded_example : 1 + 1 ≤ 3
eth_quorum_wait_bounded_example =
    eth_quorum_wait_bounded quiet 0 start (omega arith) (still_waiting, wait_for_quorum_again, tt)
