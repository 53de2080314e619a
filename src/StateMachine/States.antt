-- ===== src/StateMachine/States.antt =====
-- The maps of steps that createMachineStates builds.
use mathlib.Core.Logic.{if_pos, if_neg}
use elrond_eth_bridge.Common.{
  ◌≡◌, ◌≢◌, refl, Result, err, Error, Result-cases, duplicated_step_identifier, sym, Option, none,
  some, List, [], ◌∷◌, ok, All, arith, Option-cases, inl, inr,
}
use elrond_eth_bridge.StateMachine.{
  Step, MachineStates, find_step, create_machine_states_from, create_machine_states, check_steps,
}

-- No two steps of the list have one identifier.
abbrev pub AreDistinct : {Identifier S : Type 0} → List (Step Identifier S) → Type 0
AreDistinct [] = Unit
AreDistinct (s ∷ steps) = All (λ t. t.identifier ≢ s.identifier) steps × AreDistinct steps

module _ {Identifier S : Type 0} (same : Discrete Identifier) where
  -- Every step of the list is found under its identifier.
  abbrev pub AreFound : MachineStates Identifier S → List (Step Identifier S) → Type 0
  AreFound states [] = Unit
  AreFound states (s ∷ steps) =
      (find_step same s.identifier states ≡ some (some s)) × AreFound states steps

  -- A step that is added under a new identifier hides no other.
  find_step_newer :
      (states : MachineStates Identifier S) (s : Step Identifier S) (id : Identifier)
      (v : Option (Step Identifier S))
      → find_step same s.identifier states ≡ none
      → find_step same id states ≡ some v
      → find_step same id ((s.identifier, some s) ∷ states) ≡ some v
  unfolding find_step
  find_step_newer states s id v fresh f = elim (same s.identifier id) [
    | yes e ↦ cc (e, fresh, f)
    | no ne ↦ rw (if_neg _ ne) f
  ]

  find_step_self :
      (states : MachineStates Identifier S) (s : Step Identifier S)
      → find_step same s.identifier ((s.identifier, some s) ∷ states) ≡ some (some s)
  unfolding find_step
  find_step_self states s = rw (if_pos _ refl)

  find_step_other :
      (states : MachineStates Identifier S) (s : Step Identifier S) (id : Identifier)
      → id ≢ s.identifier
      → find_step same id states ≡ none
      → find_step same id ((s.identifier, some s) ∷ states) ≡ none
  unfolding find_step
  find_step_other states s id ne f = rw (if_neg _ (λ e. ne (sym e))) f

  -- What stands in the map stays in it.
  create_from-find_step :
      (states out : MachineStates Identifier S) (steps : List (Step Identifier S)) (id : Identifier)
      (v : Option (Step Identifier S))
      → create_machine_states_from same states steps ≡ ok out
      → find_step same id states ≡ some v
      → find_step same id out ≡ some v
  unfolding create_machine_states_from
  create_from-find_step states out [] id v h f = cc
  create_from-find_step states out (s ∷ steps) id v h f =
      elim (Option-cases (find_step same s.identifier states)) [
        | inl fresh ↦
            create_from-find_step ((s.identifier, some s) ∷ states) out steps id v
              (rw (fresh, create_machine_states_from) at h) (find_step_newer states s id v fresh f)
        | inr (u, taken) ↦ ground arith
      ]

  -- A map that was built has every step of the list under its identifier.
  create_from-found :
      (states out : MachineStates Identifier S) (steps : List (Step Identifier S))
      → create_machine_states_from same states steps ≡ ok out
      → AreFound out steps
  unfolding create_machine_states_from
  create_from-found states out [] h = tt
  create_from-found states out (s ∷ steps) h =
      elim (Option-cases (find_step same s.identifier states)) [
        | inl fresh ↦
            let h' = rw (fresh, create_machine_states_from) at h in
            (
              create_from-find_step ((s.identifier, some s) ∷ states) out steps s.identifier
                  (some s) h' (find_step_self states s),
              create_from-found ((s.identifier, some s) ∷ states) out steps h',
            )
        | inr (u, taken) ↦ absurd (ground arith)
      ]

  still_fresh :
      (states : MachineStates Identifier S) (s : Step Identifier S)
      (steps : List (Step Identifier S))
      → All (λ t. t.identifier ≢ s.identifier) steps
      → All (λ t. find_step same t.identifier states ≡ none) steps
      → All (λ t. find_step same t.identifier ((s.identifier, some s) ∷ states) ≡ none) steps
  still_fresh states s [] d f = tt
  still_fresh states s (t ∷ steps) d f =
      (find_step_other states s t.identifier d.0 f.0, still_fresh states s steps d.1 f.1)

  -- Distinct identifiers, none of which is in the map so far, are no error.
  create_from-ok :
      (states : MachineStates Identifier S) (steps : List (Step Identifier S))
      → AreDistinct steps
      → All (λ t. find_step same t.identifier states ≡ none) steps
      → check_steps same states ≡ ok tt
      → (out : MachineStates Identifier S) × (create_machine_states_from same states steps ≡ ok out)
        × (check_steps same out ≡ ok tt)
  unfolding create_machine_states_from
  create_from-ok states [] d fresh c = (states, refl, c)
  create_from-ok states (s ∷ steps) d fresh c =
      let rest =
        create_from-ok ((s.identifier, some s) ∷ states) steps d.1
          (still_fresh states s steps d.0 fresh.1) (unfold check_steps in c) in
      (rest.0, rw (fresh.0, create_machine_states_from) rest.1, rest.2)

  -- A step that the larger map lacks is another than the added one, and the smaller map lacks it.
  absent_before :
      (states : MachineStates Identifier S) (s : Step Identifier S) (id : Identifier)
      → find_step same id ((s.identifier, some s) ∷ states) ≡ none
      → (id ≢ s.identifier) × (find_step same id states ≡ none)
  unfolding find_step
  absent_before states s id f = elim (same s.identifier id) [
    | yes e ↦ absurd (ground arith)
    | no ne ↦ (λ e. ne (sym e), rw (if_neg _ ne) at f)
  ]

  All-absent_before :
      (states : MachineStates Identifier S) (s : Step Identifier S)
      (steps : List (Step Identifier S))
      → All (λ t. find_step same t.identifier ((s.identifier, some s) ∷ states) ≡ none) steps
      → All (λ t. t.identifier ≢ s.identifier) steps
        × All (λ t. find_step same t.identifier states ≡ none) steps
  All-absent_before states s [] f = (tt, tt)
  All-absent_before states s (t ∷ steps) f =
      let here = absent_before states s t.identifier f.0 in
      let later = All-absent_before states s steps f.1 in ((here.0, later.0), (here.1, later.1))

  create_from-AreDistinct :
      (states out : MachineStates Identifier S) (steps : List (Step Identifier S))
      → create_machine_states_from same states steps ≡ ok out
      → AreDistinct steps × All (λ t. find_step same t.identifier states ≡ none) steps
  unfolding create_machine_states_from
  create_from-AreDistinct states out [] h = (tt, tt)
  create_from-AreDistinct states out (s ∷ steps) h =
      elim (Option-cases (find_step same s.identifier states)) [
        | inl fresh ↦
            let rest =
              create_from-AreDistinct ((s.identifier, some s) ∷ states) out steps
                (rw (fresh, create_machine_states_from) at h) in
            let parts = All-absent_before states s steps rest.1 in
            ((parts.0, rest.0), (fresh, parts.1))
        | inr (u, taken) ↦ absurd (ground arith)
      ]

  none_in_empty :
      (ts : List (Step Identifier S)) → All (λ t. find_step {S = S} same t.identifier [] ≡ none) ts
  unfolding find_step
  none_in_empty [] = tt
  none_in_empty (t ∷ ts) = (refl, none_in_empty ts)

  create_from-duplicated :
      (states : MachineStates Identifier S) (steps : List (Step Identifier S)) (e : Error)
      → create_machine_states_from same states steps ≡ err e
      → e ≡ duplicated_step_identifier
  unfolding create_machine_states_from
  create_from-duplicated states [] e failed = absurd (cc (failed))
  create_from-duplicated states (s ∷ steps) e failed =
      elim (Option-cases (find_step same s.identifier states)) [
        | inl fresh ↦
            create_from-duplicated ((s.identifier, some s) ∷ states) steps e
              (rw (fresh, create_machine_states_from) at failed)
        | inr (u, taken) ↦ ground (arith, taken, failed)
      ]

  -- What `createMachineStates` makes of a list of steps.
  abbrev pub Builds : List (Step Identifier S) → Result (MachineStates Identifier S) → Type 0
  Builds steps (ok out) = AreDistinct steps × AreFound out steps × (check_steps same out ≡ ok tt)
  Builds steps (err e) = ¬ AreDistinct steps × (e ≡ duplicated_step_identifier)

  -- `createMachineStates` succeeds exactly when no two steps have one identifier, and the map that it
  -- returns then has every step under its identifier, and passes the check of the machine's
  -- constructor for nil steps; if two have one, its error is that of a duplicated identifier.
  pub create_machine_states_iff :
      (steps : List (Step Identifier S)) → Builds steps (create_machine_states same steps)
  unfolding create_machine_states check_steps
  create_machine_states_iff steps = elim (Result-cases (create_machine_states_from same [] steps)) [
    | inl (out, made) ↦
        let d : AreDistinct steps = (create_from-AreDistinct [] out steps made).0 in
        let (built, again, checked) = create_from-ok [] steps d (none_in_empty steps) refl in
        rw (made, Builds)
          (d, create_from-found [] out steps made, ground (arith, made, again, checked))
    | inr (e, failed) ↦
        rw (failed, Builds)
          (
            λ d.
                let (built, again, _) = create_from-ok [] steps d (none_in_empty steps) refl in
                cc (failed, again),
            create_from-duplicated [] steps e failed,
          )
  ]
