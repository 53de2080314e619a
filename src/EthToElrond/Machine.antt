-- ===== src/EthToElrond/Machine.antt =====
-- CreateSteps of bridges/ethElrond/steps/ethToElrond/stepsFactory.go, and the state machine of the
-- half-bridge: stateMachine/stateMachine.go over these steps.
use mathlib.Core.Path.{subst}
use elrond_eth_bridge.Common.{
  ℕ, ◌≡◌, refl, ap, sym, Option, none, some, List, [], ◌∷◌, Result, ok, err, All, length, arith,
}
use elrond_eth_bridge.Bridge.Clients.{log_debug, Environment, IsLawful}
use elrond_eth_bridge.Bridge.Monad.{Bridge, Returns, Leaves}
use elrond_eth_bridge.Bridge.Protocol.{FollowsRules}
use elrond_eth_bridge.StateMachine
use elrond_eth_bridge.StateMachine.{
  StateMachine, MachineStates, find_step, create_machine_states, new_state_machine, run,
}
use elrond_eth_bridge.StateMachine.Run.{Holds, Holds-map, IsClosed, IsRunning, run-IsRunning}
use elrond_eth_bridge.EthToElrond.{
  Step, getting_pending_batch_from_ethereum, proposing_transfer_on_elrond,
  signing_proposed_transfer_on_elrond, waiting_for_quorum, performing_action_id, Step-discrete,
  step_name, execute,
}
use elrond_eth_bridge.EthToElrond.Invariant.{Inv, eth_execute-Inv}

module _ {W : Type 0} (env : Environment W) where
  abbrev pub step_of : Step → StateMachine.Step Step (Bridge W)
  step_of id = record { identifier = id; execute = execute env id }

  -- The slice of steps in `createMachineStates`.
  unfoldable pub steps_slice : List (StateMachine.Step Step (Bridge W))
  steps_slice =
      step_of getting_pending_batch_from_ethereum
      ∷ step_of proposing_transfer_on_elrond
      ∷ step_of signing_proposed_transfer_on_elrond
      ∷ step_of waiting_for_quorum
      ∷ step_of performing_action_id
      ∷ []

  -- What `executeStep` tells the logger and the status handler.
  abbrev pub note_step : Step → Bridge W → Bridge W
  note_step step s = record s {
    world =
        env.set_string_metric "current state machine step" (step_name step)
          (env.log log_debug "executing step" s.world);
  }

  -- `CreateSteps` for the executor, and `NewStateMachine` from the first step.
  unfoldable pub create_state_machine : Result (StateMachine Step (Bridge W))
  unfolding steps_slice
  create_state_machine = elim (create_machine_states Step-discrete steps_slice) [
    | err e ↦ err e
    | ok states ↦ new_state_machine Step-discrete states getting_pending_batch_from_ethereum
  ]

  abbrev pub states : MachineStates Step (Bridge W)
  states =
      (performing_action_id, some (step_of performing_action_id))
      ∷ (waiting_for_quorum, some (step_of waiting_for_quorum))
      ∷ (signing_proposed_transfer_on_elrond, some (step_of signing_proposed_transfer_on_elrond))
      ∷ (proposing_transfer_on_elrond, some (step_of proposing_transfer_on_elrond))
      ∷ (getting_pending_batch_from_ethereum, some (step_of getting_pending_batch_from_ethereum))
      ∷ []

  abbrev pub machine : StateMachine Step (Bridge W)
  machine = record {
    steps = states;
    current_step = some (step_of getting_pending_batch_from_ethereum);
  }

  pub create_state_machine_lem : create_state_machine ≡ ok machine
  unfolding create_state_machine create_machine_states new_state_machine Step-discrete
  create_state_machine_lem = refl

  pub find_step-states : (id : Step) → find_step Step-discrete id states ≡ some (some (step_of id))
  unfolding find_step Step-discrete
  find_step-states getting_pending_batch_from_ethereum = refl
  find_step-states proposing_transfer_on_elrond = refl
  find_step-states signing_proposed_transfer_on_elrond = refl
  find_step-states waiting_for_quorum = refl
  find_step-states performing_action_id = refl

  pub Inv-world :
      (id : Step) (s : Bridge W) (w : W) → Inv env id s → Inv env id (record s { world = w })
  Inv-world id s w h = ground arith

  -- A property of the state that every step keeps, and the notes of the machine too.
  pub record IsKeptByRun (K : Bridge W → Type 0) : Type 0 where
    pub stepped : (step : Step) (s : Bridge W) → K s → Leaves K (execute env step s)
    pub noted_kept : (step : Step) (s : Bridge W) → K s → K (note_step step s)

  module _ (K : Bridge W → Type 0) where
    abbrev pub Both : Step → Bridge W → Type 0
    Both id s = Inv env id s × K s

    -- The invariant holds of the next step, and the map has that step.
    abbrev Continues : Step × Bridge W → Type 0
    Continues (id, s) =
        Both id s
        × ((next : StateMachine.Step Step (Bridge W)) × (find_step Step-discrete id states
              ≡ some (some next))
            × (next.identifier ≡ id))

    execute-Continues :
        (o : Option (Step × Bridge W)) → Returns (Inv env) o → Leaves K o → Holds Continues o
    execute-Continues none h k = h
    execute-Continues (some (id, s)) h k = ((h, k), (step_of id, find_step-states id, refl))

    pub states-IsClosed :
        IsLawful env → IsKeptByRun K → IsClosed Step-discrete note_step Both states
    states-IsClosed law kept = record {
      noted = λ id s h. (Inv-world id s (note_step id s).world h.0, kept.noted_kept id s h.1);
      goes_on = λ step s found h.
          let same : step ≡ step_of step.identifier =
            cc (found, find_step-states step.identifier) in
          subst (λ (f : Bridge W → Option (Step × Bridge W)). Holds Continues (f s))
            (ap (λ (t : StateMachine.Step Step (Bridge W)). t.execute) (sym same))
            (execute-Continues (execute env step.identifier s)
              (eth_execute-Inv env step.identifier s law h.0) (kept.stepped step.identifier s h.1));
    }

    starts-Inv : (s : Bridge W) → s.calls ≡ [] → Inv env getting_pending_batch_from_ethereum s
    starts-Inv s fresh = ground arith

    -- The machine stands at its first step.
    pub machine-IsRunning :
        (s : Bridge W)
        → s.calls ≡ []
        → K s
        → IsRunning Step-discrete note_step Both states machine s
    machine-IsRunning s fresh k = record {
      at = step_of getting_pending_batch_from_ethereum;
      current = refl;
      found = find_step-states getting_pending_batch_from_ethereum;
      same_steps = refl;
      holds = (starts-Inv s fresh, k);
    }

    -- The run below, with a property that every step keeps.
    pub eth_run_keeping :
        (n : ℕ) (s : Bridge W)
        → IsLawful env
        → IsKeptByRun K
        → s.calls ≡ []
        → K s
        → (sm : StateMachine Step (Bridge W)) × (create_state_machine ≡ ok sm)
          × Holds
              (λ out.
                (All (λ r. r ≡ ok tt) out.0
                  × (length out.0 ≡ n)
                  × FollowsRules env.ethereum_client.generate_message_hash out.2.calls)
                × K out.2)
              (run Step-discrete note_step n sm s)
    eth_run_keeping n s law kept fresh k = (
      machine,
      create_state_machine_lem,
      Holds-map
          (λ out.
            All (λ r. r ≡ ok tt) out.0
            × (length out.0 ≡ n)
            × IsRunning Step-discrete note_step Both states out.1 out.2)
          _ (run Step-discrete note_step n machine s)
          (run-IsRunning Step-discrete note_step Both n states machine s (states-IsClosed law kept)
            (machine-IsRunning s fresh k))
          λ out h. ((h.0, h.1, h.2.holds.0.rules), h.2.holds.1),
    )

  nothing_kept : IsKeptByRun (λ _. Unit)
  nothing_kept = record {
    stepped = λ step s h. leaves_unit (execute env step s);
    noted_kept = λ step s h. tt;
  }
    where
      leaves_unit : (o : Option (Step × Bridge W)) → Leaves (λ _. Unit) o
      leaves_unit none = tt
      leaves_unit (some _) = tt

  -- The state machine of the half-bridge is created without an error, and from an executor that has
  -- made no call it runs for any number of steps, whatever the clients answer, so long as they
  -- return no nil batch without an error: no execution panics or returns an error, and every
  -- request that was sent followed the rules of the bridge.
  pub eth_run_safe :
      (n : ℕ) (s : Bridge W)
      → IsLawful env
      → s.calls ≡ []
      → (sm : StateMachine Step (Bridge W)) × (create_state_machine ≡ ok sm)
        × Holds
            (λ out.
              All (λ r. r ≡ ok tt) out.0
              × (length out.0 ≡ n)
              × FollowsRules env.ethereum_client.generate_message_hash out.2.calls)
            (run Step-discrete note_step n sm s)
  eth_run_safe n s law fresh =
      let (sm, created, held) = eth_run_keeping (λ _. Unit) n s law nothing_kept fresh tt in
      (sm, created, Holds-map _ _ (run Step-discrete note_step n sm s) held λ out h. h.0)
