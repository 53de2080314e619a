-- ===== src/StateMachine/Tests.antt =====
-- stateMachine/stateMachine.go on two steps that hand over to one another.
use elrond_eth_bridge.Common.{
  ℕ, ◌+◌, ◌≡◌, refl, Bool, true, false, none, some, [], ◌∷◌, err, step_not_found,
}
use elrond_eth_bridge.StateMachine.{Step, create_machine_states, execute}
use elrond_eth_bridge.StateMachine.States.{Builds, create_machine_states_iff}

Bool-discrete : Discrete Bool
Bool-discrete = hlevel

abbrev ping : Step Bool ℕ
ping = record { identifier = true; execute = λ n. some (false, n + 1) }

abbrev pong : Step Bool ℕ
pong = record { identifier = false; execute = λ n. some (true, n) }

create_machine_states_iff_example :
    Builds Bool-discrete
      (ping ∷ pong ∷ ping ∷ [])
      (create_machine_states Bool-discrete (ping ∷ pong ∷ ping ∷ []))
create_machine_states_iff_example =
    create_machine_states_iff Bool-discrete (ping ∷ pong ∷ ping ∷ [])

abbrev note : Bool → ℕ → ℕ
note id n = n

-- A step that nobody knows ends the machine with an error.
lost :
    execute Bool-discrete note
      (record { steps = (true, some ping) ∷ []; current_step = some ping })
      3
    ≡ some (err step_not_found, record { steps = (true, some ping) ∷ []; current_step = none }, 4)
unfolding execute Bool-discrete
lost = refl
