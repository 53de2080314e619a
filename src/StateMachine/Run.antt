-- ===== src/StateMachine/Run.antt =====
-- Runs of the machine of stateMachine/stateMachine.go: what its steps keep, a run keeps.
use mathlib.Core.Path.{sym, subst}
use elrond_eth_bridge.Common.{
  ℕ, zero, suc, ◌≡◌, refl, ap, Option, none, some, Result, ok, All, arith, length,
}
use elrond_eth_bridge.StateMachine.{
  Step, MachineStates, StateMachine, find_step, get_next_step, go_on, execute, run,
}

-- What holds of an outcome that is no panic.
abbrev pub Holds : {A : Type 0} → (A → Type 0) → Option A → Type 0
Holds P none = ⊥
Holds P (some a) = P a

pub Holds-map :
    {A : Type 0} (P Q : A → Type 0) (o : Option A) → Holds P o → ((a : A) → P a → Q a) → Holds Q o
Holds-map P Q none h k = h
Holds-map P Q (some a) h k = k a h

pub Holds-then :
    {A B : Type 0} (P : A → Type 0) (Q : B → Type 0) (o : Option A) (f : A → Option B)
    → Holds P o
    → ((a : A) → P a → Holds Q (f a))
    → Holds Q (elim o [ none ↦ none | some a ↦ f a ])
Holds-then P Q none f h k = h
Holds-then P Q (some a) f h k = k a h

module _ {Identifier S : Type 0} (same : Discrete Identifier) (note : Identifier → S → S)
    (P : Identifier → S → Type 0) where
  -- Each step of the map carries its identifier, is no nil pointer, and never panics where `P`
  -- holds of it; `P` then holds of the next step, which the map has. Notes do not touch `P`.
  pub record IsClosed (steps : MachineStates Identifier S) : Type 0 where
    pub noted : (id : Identifier) (s : S) → P id s → P id (note id s)
    pub goes_on :
        (step : Step Identifier S) (s : S)
        → find_step same step.identifier steps ≡ some (some step)
        → P step.identifier s
        → Holds
            (λ out.
              P out.0 out.1
              × ((next : Step Identifier S) × (find_step same out.0 steps ≡ some (some next))
                  × (next.identifier ≡ out.0)))
            (step.execute s)

  -- The machine stands at a step of its map, where `P` holds.
  pub record IsRunning (steps : MachineStates Identifier S) (sm : StateMachine Identifier S) (s : S)
      : Type 0 where
    pub at : Step Identifier S
    pub current : sm.current_step ≡ some at
    pub found : find_step same at.identifier steps ≡ some (some at)
    pub same_steps : sm.steps ≡ steps
    pub holds : P at.identifier s

  -- What a step leaves: `P`, and a next step that the map has.
  abbrev Continues : MachineStates Identifier S → Identifier × S → Type 0
  Continues steps out =
      P out.0 out.1
      × ((next : Step Identifier S) × (find_step same out.0 steps ≡ some (some next))
          × (next.identifier ≡ out.0))

  abbrev pub RunsOn :
      MachineStates Identifier S → Result (Unit {0}) × StateMachine Identifier S × S → Type 0
  RunsOn steps out = (out.0 ≡ ok tt) × IsRunning steps out.1 out.2

  go_on_lem :
      (sm : StateMachine Identifier S) (next : Identifier) (step : Step Identifier S) (s : S)
      → find_step same next sm.steps ≡ some (some step)
      → go_on same note sm (next, s) ≡ (ok tt, record sm { current_step = some step }, s)
  unfolding get_next_step
  go_on_lem sm next step s found = ground arith

  go_on-RunsOn :
      (steps : MachineStates Identifier S) (sm : StateMachine Identifier S) (next : Identifier)
      (s : S)
      → sm.steps ≡ steps
      → Continues steps (next, s)
      → RunsOn steps (go_on same note sm (next, s))
  go_on-RunsOn steps sm next s e (p, (step, found, named)) =
      rw (go_on_lem sm next step s (rw e found)) (
        refl,
        record {
          at = step;
          current = refl;
          found = subst (λ id. find_step same id steps ≡ some (some step)) (sym named) found;
          same_steps = e;
          holds = subst (λ id. P id s) (sym named) p;
        },
      )

  executed-RunsOn :
      (steps : MachineStates Identifier S) (sm : StateMachine Identifier S)
      (o : Option (Identifier × S))
      → sm.steps ≡ steps
      → Holds (Continues steps) o
      → Holds (RunsOn steps) (elim o [ none ↦ none | some out ↦ some (go_on same note sm out) ])
  executed-RunsOn steps sm none e h = h
  executed-RunsOn steps sm (some (next, s)) e h = go_on-RunsOn steps sm next s e h

  pub execute-RunsOn :
      (steps : MachineStates Identifier S) (sm : StateMachine Identifier S) (s : S)
      → IsClosed steps
      → IsRunning steps sm s
      → Holds (RunsOn steps) (execute same note sm s)
  unfolding execute
  execute-RunsOn steps sm s closed h =
      rw (h.current, execute)
        (executed-RunsOn steps sm (h.at.execute (note h.at.identifier s)) h.same_steps (
          closed.goes_on h.at (note h.at.identifier s) h.found
            (closed.noted h.at.identifier s h.holds)))

  -- A machine over a closed map runs without an error and without a panic, however long, and `P`
  -- holds of its step and its state in the end.
  pub run-IsRunning :
      (n : ℕ) (steps : MachineStates Identifier S) (sm : StateMachine Identifier S) (s : S)
      → IsClosed steps
      → IsRunning steps sm s
      → Holds
          (λ out. All (λ r. r ≡ ok tt) out.0 × (length out.0 ≡ n) × IsRunning steps out.1 out.2)
          (run same note n sm s)
  unfolding run
  run-IsRunning zero steps sm s closed h = (tt, refl, h)
  run-IsRunning (suc n) steps sm s closed h =
      Holds-then (RunsOn steps) _ (execute same note sm s) _ (execute-RunsOn steps sm s closed h)
        λ out done.
          Holds-then
            (λ rest.
              All (λ r. r ≡ ok tt) rest.0 × (length rest.0 ≡ n) × IsRunning steps rest.1 rest.2)
            _ (run same note n out.1 out.2) _ (run-IsRunning n steps out.1 out.2 closed done.1)
            λ rest all. ((done.0, all.0), ap suc all.1, all.2)
