-- ===== src/System/Relayer/Runs.antt =====
-- Runs of both half-bridges of factory/ethElrondBridgeComponents.go, in any order.
use elrond_eth_bridge.Common.{
  ℕ, suc, ◌≡◌, refl, ap, false, Option, some, none, List, [], ◌∷◌, Result, ok, All, length, arith,
}
use mathlib.Core.Path.{subst}
use elrond_eth_bridge.Bridge.Clients.{Environment}
use elrond_eth_bridge.Bridge.Kept.{all_kept, Fits}
use elrond_eth_bridge.Bridge.Monad.{Bridge}
use elrond_eth_bridge.Bridge.Protocol.{FollowsRules}
use elrond_eth_bridge.Bridge.Executor.Create.{
  ArgsBridgeExecutor, create_bridge_executor, new_bridge_executor,
}
use elrond_eth_bridge.StateMachine.{StateMachine}
use elrond_eth_bridge.StateMachine.Run.{
  Holds, Holds-map, Holds-then, IsRunning, RunsOn, execute-RunsOn,
}
use elrond_eth_bridge.EthToElrond
use elrond_eth_bridge.EthToElrond.Kept.{eth_execute-Fits}
use elrond_eth_bridge.EthToElrond.Machine
use elrond_eth_bridge.ElrondToEth
use elrond_eth_bridge.ElrondToEth.Kept.{elrond_execute-Fits}
use elrond_eth_bridge.System.{
  Half, ethereum_to_elrond, elrond_to_ethereum, Services, System, environment, ethereum_client,
}
use elrond_eth_bridge.System.Amounts.{HasAmounts}
use elrond_eth_bridge.System.Backed.{AllBacked}
use elrond_eth_bridge.System.Safety.{IsSafe, IsReady, environment-IsLawful, environment-AllKept}
use elrond_eth_bridge.System.Relayer.{
  Relayer, new_relayer, eth_bridge, elrond_bridge, after_eth, after_elrond, poll, run_relayer,
}

module _ {W : Type 0} (services : Services W) where
  open services use {chain}

  abbrev eth_env : Environment (System W)
  eth_env = environment services ethereum_to_elrond

  abbrev elrond_env : Environment (System W)
  elrond_env = environment services elrond_to_ethereum

  -- The shared world is safe, and the stored batch has no nil amount.
  abbrev Fit : Bridge (System W) → Type 0
  Fit = Fits (IsSafe services) HasAmounts

  Fit-world :
      (s : Bridge (System W)) (w : System W)
      → IsSafe services w
      → Fit s
      → Fit (record s { world = w })
  unfolding Fits
  Fit-world s w h k = (h, k.1)

  Fit-IsSafe : (s : Bridge (System W)) → Fit s → IsSafe services s.world
  unfolding Fits
  Fit-IsSafe s k = k.0

  eth_noted : (fits : IsReady services) → EthToElrond.Machine.IsKeptByRun eth_env Fit
  unfolding Fits
  eth_noted fits =
      let kept = environment-AllKept services ethereum_to_elrond fits in
      let each = all_kept eth_env (IsSafe services) HasAmounts kept in
      record {
        stepped = eth_execute-Fits eth_env (IsSafe services) HasAmounts kept;
        noted_kept =
            λ step s h. (each.string_metric_kept _ _ _ (each.log_kept _ _ s.world h.0), h.1);
      }

  elrond_noted : (fits : IsReady services) → ElrondToEth.Machine.IsKeptByRun elrond_env Fit
  unfolding Fits
  elrond_noted fits =
      let kept = environment-AllKept services elrond_to_ethereum fits in
      let each = all_kept elrond_env (IsSafe services) HasAmounts kept in
      record {
        stepped = elrond_execute-Fits elrond_env (IsSafe services) HasAmounts kept;
        noted_kept =
            λ step s h. (each.string_metric_kept _ _ _ (each.log_kept _ _ s.world h.0), h.1);
      }

  -- A machine stands at a step of its half, where the invariant of the half holds.
  abbrev EthRunning : StateMachine EthToElrond.Step (Bridge (System W)) → Bridge (System W) → Type 0
  EthRunning sm s =
      IsRunning EthToElrond.Step-discrete (EthToElrond.Machine.note_step eth_env)
        (EthToElrond.Machine.Both eth_env Fit) (EthToElrond.Machine.states eth_env) sm s

  abbrev ElrondRunning :
      StateMachine ElrondToEth.Step (Bridge (System W)) → Bridge (System W) → Type 0
  ElrondRunning sm s =
      IsRunning ElrondToEth.Step-discrete (ElrondToEth.Machine.note_step elrond_env)
        (ElrondToEth.Machine.Both elrond_env Fit) (ElrondToEth.Machine.states elrond_env) sm s

  -- What the other half does with the world, a half does not notice.
  eth_undisturbed :
      (sm : StateMachine EthToElrond.Step (Bridge (System W))) (s : Bridge (System W))
      (w : System W)
      → IsSafe services w
      → EthRunning sm s
      → EthRunning sm (record s { world = w })
  eth_undisturbed sm s w safe h = record {
    at = h.at;
    current = h.current;
    found = h.found;
    same_steps = h.same_steps;
    holds = (
      EthToElrond.Machine.Inv-world eth_env h.at.identifier s w h.holds.0,
      Fit-world s w safe h.holds.1,
    );
  }

  elrond_undisturbed :
      (sm : StateMachine ElrondToEth.Step (Bridge (System W))) (s : Bridge (System W))
      (w : System W)
      → IsSafe services w
      → ElrondRunning sm s
      → ElrondRunning sm (record s { world = w })
  elrond_undisturbed sm s w safe h = record {
    at = h.at;
    current = h.current;
    found = h.found;
    same_steps = h.same_steps;
    holds = (
      ElrondToEth.Machine.Inv-world elrond_env h.at.identifier s w h.holds.0,
      Fit-world s w safe h.holds.1,
    );
  }

  record BothRun (r : Relayer W) : Type 0 where
    eth_runs : EthRunning r.eth_machine (eth_bridge services r)
    elrond_runs : ElrondRunning r.elrond_machine (elrond_bridge services r)

  abbrev Polled : Result (Unit {0}) × Relayer W → Type 0
  Polled out = (out.0 ≡ ok tt) × BothRun out.1

  after_eth-Polled :
      (r : Relayer W)
      (o : Option
        (Result (Unit {0}) × StateMachine EthToElrond.Step (Bridge (System W)) × Bridge (System W)))
      → BothRun r
      → Holds
          (RunsOn EthToElrond.Step-discrete
            (EthToElrond.Machine.note_step eth_env)
            (EthToElrond.Machine.Both eth_env Fit)
            (EthToElrond.Machine.states eth_env))
          o
      → Holds Polled (elim o [ none ↦ none | some out ↦ some (after_eth services r out) ])
  after_eth-Polled r none h k = k
  after_eth-Polled r (some (result, sm, s)) h (fine, runs) = (
    fine,
    record {
      eth_runs = runs;
      elrond_runs =
          elrond_undisturbed r.elrond_machine (elrond_bridge services r) s.world
            (Fit-IsSafe s runs.holds.1) h.elrond_runs;
    },
  )

  after_elrond-Polled :
      (r : Relayer W)
      (o : Option
        (Result (Unit {0}) × StateMachine ElrondToEth.Step (Bridge (System W)) × Bridge (System W)))
      → BothRun r
      → Holds
          (RunsOn ElrondToEth.Step-discrete
            (ElrondToEth.Machine.note_step elrond_env)
            (ElrondToEth.Machine.Both elrond_env Fit)
            (ElrondToEth.Machine.states elrond_env))
          o
      → Holds Polled (elim o [ none ↦ none | some out ↦ some (after_elrond services r out) ])
  after_elrond-Polled r none h k = k
  after_elrond-Polled r (some (result, sm, s)) h (fine, runs) = (
    fine,
    record {
      elrond_runs = runs;
      eth_runs =
          eth_undisturbed r.eth_machine (eth_bridge services r) s.world (Fit-IsSafe s runs.holds.1)
            h.eth_runs;
    },
  )

  poll-Polled :
      (half : Half) (r : Relayer W)
      → IsReady services
      → BothRun r
      → Holds Polled (poll services half r)
  unfolding poll
  poll-Polled ethereum_to_elrond r fits h = after_eth-Polled r _ h (
      execute-RunsOn EthToElrond.Step-discrete (EthToElrond.Machine.note_step eth_env)
        (EthToElrond.Machine.Both eth_env Fit) (EthToElrond.Machine.states eth_env) r.eth_machine
        (eth_bridge services r)
        (EthToElrond.Machine.states-IsClosed eth_env Fit
          (environment-IsLawful services ethereum_to_elrond) (eth_noted fits))
        h.eth_runs)
  poll-Polled elrond_to_ethereum r fits h = after_elrond-Polled r _ h (
      execute-RunsOn ElrondToEth.Step-discrete (ElrondToEth.Machine.note_step elrond_env)
        (ElrondToEth.Machine.Both elrond_env Fit) (ElrondToEth.Machine.states elrond_env)
        r.elrond_machine (elrond_bridge services r)
        (ElrondToEth.Machine.states-IsClosed elrond_env Fit
          (environment-IsLawful services elrond_to_ethereum) (elrond_noted fits))
        h.elrond_runs)

  abbrev AllPolled : ℕ → List (Result (Unit {0})) × Relayer W → Type 0
  AllPolled n out = All (λ r. r ≡ ok tt) out.0 × (length out.0 ≡ n) × BothRun out.1

  run-AllPolled :
      (halves : List Half) (r : Relayer W)
      → IsReady services
      → BothRun r
      → Holds (AllPolled (length halves)) (run_relayer services halves r)
  unfolding run_relayer
  run-AllPolled [] r fits h = (tt, refl, h)
  run-AllPolled (half ∷ halves) r fits h =
      Holds-then Polled _ (poll services half r) _ (poll-Polled half r fits h) λ out done.
        Holds-then (AllPolled (length halves)) _ (run_relayer services halves out.1) _
          (run-AllPolled halves out.1 fits done.1)
          λ rest all. ((done.0, all.0), ap suc all.1, all.2)

  -- A relayer whose state is that of `new_relayer`.
  starts-BothRun :
      (args : ArgsBridgeExecutor) (system : System W)
      → IsSafe services system
      → BothRun (record {
        eth_machine = EthToElrond.Machine.machine eth_env;
        eth_executor = create_bridge_executor args;
        eth_calls = [];
        elrond_machine = ElrondToEth.Machine.machine elrond_env;
        elrond_executor = create_bridge_executor args;
        elrond_calls = [];
        system = system;
      })
  unfolding Fits create_bridge_executor
  starts-BothRun args system safe = record {
    eth_runs = EthToElrond.Machine.machine-IsRunning eth_env Fit _ refl (safe, tt);
    elrond_runs = ElrondToEth.Machine.machine-IsRunning elrond_env Fit _ refl (safe, tt);
  }

  new_relayer-BothRun :
      (args : ArgsBridgeExecutor) (system : System W) (r : Relayer W)
      → IsSafe services system
      → new_relayer services args system ≡ ok r
      → BothRun r
  unfolding new_relayer new_bridge_executor
  new_relayer-BothRun args system r safe e =
      subst BothRun
        (ground (
          arith,
          EthToElrond.Machine.create_state_machine_lem eth_env,
          ElrondToEth.Machine.create_state_machine_lem elrond_env,
          e,
        ))
        (starts-BothRun args system safe)

  starts-IsSafe :
      (system : System W)
      → system.panicked ≡ false
      → system.ethereum.calls ≡ []
      → IsSafe services system
  unfolding IsSafe AllBacked
  starts-IsSafe system calm fresh = (calm, rw fresh tt)

  -- The two logs and the system after a run.
  abbrev pub WentWell : ℕ → List (Result (Unit {0})) × Relayer W → Type 0
  WentWell n (results, r) =
      All (λ result. result ≡ ok tt) results
      × (length results ≡ n)
      × FollowsRules (ethereum_client services).generate_message_hash r.eth_calls
      × FollowsRules (ethereum_client services).generate_message_hash r.elrond_calls
      × (r.system.panicked ≡ false)
      × AllBacked chain r.system.ethereum.calls

  went_well :
      (n : ℕ) (out : List (Result (Unit {0})) × Relayer W) → AllPolled n out → WentWell n out
  unfolding Fits IsSafe environment
  went_well n (results, r) (fine, count, h) = (
    fine, count, h.eth_runs.holds.0.rules, h.elrond_runs.holds.0.rules, h.eth_runs.holds.1.0.0,
    h.eth_runs.holds.1.0.1,
  )

  -- Of a relayer that is created over clients of which none has panicked and which sent nothing.
  pub relayer_run_safe :
      (halves : List Half) (args : ArgsBridgeExecutor) (system : System W) (r : Relayer W)
      → IsReady services
      → system.panicked ≡ false
      → system.ethereum.calls ≡ []
      → new_relayer services args system ≡ ok r
      → Holds (WentWell (length halves)) (run_relayer services halves r)
  relayer_run_safe halves args system r fits calm fresh created =
      Holds-map (AllPolled (length halves)) (WentWell (length halves))
        (run_relayer services halves r)
        (run-AllPolled halves r fits
          (new_relayer-BothRun args system r (starts-IsSafe system calm fresh) created))
        λ out h. went_well (length halves) out h
