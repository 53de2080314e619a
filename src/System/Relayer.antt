-- ===== src/System/Relayer.antt =====
-- factory/ethElrondBridgeComponents.go: both half-bridges of a relayer, which poll their machines in
-- some order. The executors have the same numbers in their configuration; the machines share the
-- clients, and with them the world.
pub mod Runs
use elrond_eth_bridge.Common.{ℕ, Option, some, none, List, [], ◌∷◌, Result, ok, err}
use elrond_eth_bridge.Bridge.Monad.{Executor, Call, Bridge}
use elrond_eth_bridge.Bridge.Executor.Create.{ArgsBridgeExecutor, new_bridge_executor}
use elrond_eth_bridge.StateMachine.{StateMachine, execute}
use elrond_eth_bridge.EthToElrond
use elrond_eth_bridge.EthToElrond.Machine
use elrond_eth_bridge.ElrondToEth
use elrond_eth_bridge.System.{
  Half, ethereum_to_elrond, elrond_to_ethereum, Services, System, environment,
}

-- The machine and the executor of each half, and what they share.
pub record Relayer (W : Type 0) : Type 0 where
  pub eth_machine : StateMachine EthToElrond.Step (Bridge (System W))
  pub eth_executor : Executor
  pub eth_calls : List Call
  pub elrond_machine : StateMachine ElrondToEth.Step (Bridge (System W))
  pub elrond_executor : Executor
  pub elrond_calls : List Call
  pub system : System W

module _ {W : Type 0} (services : Services W) where
  -- `createEthereumToElrondBridge`, `createEthereumToElrondStateMachine`, and the same for the other
  -- half.
  unfoldable pub new_relayer : ArgsBridgeExecutor → System W → Result (Relayer W)
  new_relayer args system = elim (new_bridge_executor args) [
    | err e ↦ err e
    | ok executor ↦
        elim (EthToElrond.Machine.create_state_machine (environment services ethereum_to_elrond)) [
          | err e ↦ err e
          | ok eth_machine ↦
              elim (ElrondToEth.Machine.create_state_machine
                (environment services elrond_to_ethereum)) [
                  | err e ↦ err e
                  | ok elrond_machine ↦ ok (record {
                    eth_machine = eth_machine;
                    eth_executor = executor;
                    eth_calls = [];
                    elrond_machine = elrond_machine;
                    elrond_executor = executor;
                    elrond_calls = [];
                    system = system;
                  })
                ]
        ]
  ]

  -- What the executor of each half works on.
  abbrev pub eth_bridge : Relayer W → Bridge (System W)
  eth_bridge r = record { executor = r.eth_executor; world = r.system; calls = r.eth_calls }

  abbrev pub elrond_bridge : Relayer W → Bridge (System W)
  elrond_bridge r = record {
    executor = r.elrond_executor;
    world = r.system;
    calls = r.elrond_calls;
  }

  abbrev pub after_eth :
      Relayer W
      → Result (Unit {0}) × StateMachine EthToElrond.Step (Bridge (System W)) × Bridge (System W)
      → Result (Unit {0}) × Relayer W
  after_eth r (result, sm, s) = (
    result,
    record r { eth_machine = sm; eth_executor = s.executor; eth_calls = s.calls; system = s.world },
  )

  abbrev pub after_elrond :
      Relayer W
      → Result (Unit {0}) × StateMachine ElrondToEth.Step (Bridge (System W)) × Bridge (System W)
      → Result (Unit {0}) × Relayer W
  after_elrond r (result, sm, s) = (
    result,
    record r {
      elrond_machine = sm;
      elrond_executor = s.executor;
      elrond_calls = s.calls;
      system = s.world;
    },
  )

  -- One call of `Execute` that the polling handler of a half makes.
  unfoldable pub poll : Half → Relayer W → Option (Result (Unit {0}) × Relayer W)
  poll ethereum_to_elrond r =
      elim (execute EthToElrond.Step-discrete
        (EthToElrond.Machine.note_step (environment services ethereum_to_elrond)) r.eth_machine
        (eth_bridge r)) [ none ↦ none | some out ↦ some (after_eth r out) ]
  poll elrond_to_ethereum r =
      elim (execute ElrondToEth.Step-discrete
        (ElrondToEth.Machine.note_step (environment services elrond_to_ethereum)) r.elrond_machine
        (elrond_bridge r)) [ none ↦ none | some out ↦ some (after_elrond r out) ]

  -- The calls of both polling handlers, in the order in which they happen: the results, in order, and
  -- the relayer, or `none` once a call panics.
  unfoldable pub run_relayer : List Half → Relayer W → Option (List (Result (Unit {0})) × Relayer W)
  run_relayer [] r = some ([], r)
  run_relayer (half ∷ halves) r = elim (poll half r) [
    | none ↦ none
    | some (result, r') ↦ elim (run_relayer halves r') [
      | none ↦ none
      | some (results, r'') ↦ some (result ∷ results, r'')
    ]
  ]
