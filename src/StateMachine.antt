-- ===== src/StateMachine.antt =====
-- stateMachine/stateMachine.go, and createMachineStates of the two stepsFactory.go files. `Identifier` is
-- the type of step identifiers, and `S` the state that the steps share. A step returns `none` when
-- it panics. `note` is what the machine tells its logger and its status handler before a step.
pub mod States
pub mod Run
mod Tests
use mathlib.Core.Logic.{ite}
use elrond_eth_bridge.Common.{
  ℕ, zero, suc, Bool, true, false, Option, none, some, List, [], ◌∷◌, ◌++◌, Result, ok, err, Error,
  step_not_found, duplicated_step_identifier, nil_step,
}

-- `core.Step`
pub record Step (Identifier S : Type 0) : Type 0 where
  pub identifier : Identifier
  pub execute : S → Option (Identifier × S)

-- `core.MachineStates`, a map from identifiers to steps, which may be nil.
abbrev pub MachineStates : Type 0 → Type 0 → Type 0
MachineStates Identifier S = List (Identifier × Option (Step Identifier S))

pub record StateMachine (Identifier S : Type 0) : Type 0 where
  pub steps : MachineStates Identifier S
  pub current_step : Option (Step Identifier S)

module _ {Identifier S : Type 0} (same : Discrete Identifier) where
  -- `steps[identifier]`
  unfoldable pub find_step :
      Identifier → MachineStates Identifier S → Option (Option (Step Identifier S))
  find_step id [] = none
  find_step id ((k, step) ∷ steps) = ite (same k id) (some step) (find_step id steps)

  -- The loop of `createMachineStates`; the map so far comes first.
  unfoldable pub create_machine_states_from :
      MachineStates Identifier S → List (Step Identifier S) → Result (MachineStates Identifier S)
  unfolding find_step
  create_machine_states_from states [] = ok states
  create_machine_states_from states (s ∷ steps) =
      let rest = create_machine_states_from ((s.identifier, some s) ∷ states) steps in
      elim (find_step s.identifier states) [ some _ ↦ err duplicated_step_identifier | none ↦ rest ]

  -- `createMachineStates`
  unfoldable pub create_machine_states :
      List (Step Identifier S) → Result (MachineStates Identifier S)
  unfolding create_machine_states_from
  create_machine_states steps = create_machine_states_from [] steps

  -- `getNextStep`; the current step that comes with an error is nil.
  unfoldable pub get_next_step :
      Identifier → MachineStates Identifier S → Result (Option (Step Identifier S))
  unfolding find_step
  get_next_step id steps = elim (find_step id steps) [
    | none ↦ err step_not_found
    | some step ↦ ok step
  ]

  -- The loop over the steps in `checkArgs`.
  unfoldable pub check_steps : MachineStates Identifier S → Result (Unit {0})
  check_steps [] = ok tt
  check_steps ((k, none) ∷ steps) = err nil_step
  check_steps ((k, some _) ∷ steps) = check_steps steps

  -- `NewStateMachine`
  unfoldable pub new_state_machine :
      MachineStates Identifier S → Identifier → Result (StateMachine Identifier S)
  unfolding get_next_step check_steps
  new_state_machine steps start = elim (check_steps steps) [
    | err e ↦ err e
    | ok _ ↦ elim (get_next_step start steps) [
      | err e ↦ err e
      | ok step ↦ ok (record { steps = steps; current_step = step })
    ]
  ]

  module _ (note : Identifier → S → S) where
    -- The end of `executeStep`: the step that follows, or an error and no step.
    abbrev go_on :
        StateMachine Identifier S
        → Identifier × S
        → Result (Unit {0}) × StateMachine Identifier S × S
    go_on sm (next, s) = elim (get_next_step next sm.steps) [
      | err e ↦ (err e, record sm { current_step = none }, s)
      | ok step ↦ (ok tt, record sm { current_step = step }, s)
    ]

    -- `Execute` and `executeStep`, which panics where the current step is nil or panics.
    unfoldable pub execute :
        StateMachine Identifier S → S → Option (Result (Unit {0}) × StateMachine Identifier S × S)
    unfolding get_next_step
    execute sm s = elim sm.current_step [
      | none ↦ none
      | some step ↦ elim (step.execute (note step.identifier s)) [
        | none ↦ none
        | some out ↦ some (go_on sm out)
      ]
    ]

    -- The calls of `Execute`, as many as given, that the polling handler makes: the results of the
    -- calls, in order, the machine and the state, or `none` once a call panics.
    unfoldable pub run :
        ℕ
        → StateMachine Identifier S
        → S
        → Option (List (Result (Unit {0})) × StateMachine Identifier S × S)
    unfolding execute
    run zero sm s = some ([], sm, s)
    run (suc n) sm s = elim (execute sm s) [
      | none ↦ none
      | some (r, sm', s') ↦ elim (run n sm' s') [
        | none ↦ none
        | some (rs, sm'', s'') ↦ some (r ∷ rs, sm'', s'')
      ]
    ]
