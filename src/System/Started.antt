-- ===== src/System/Started.antt =====
-- A relayer from its construction in factory/ethElrondBridgeComponents.go on.
use elrond_eth_bridge.Common.{
  ℕ, ◌≡◌, arith, ◌<◌, List, [], length, ok, false, Result-cases, inl, inr, ◌^◌,
}
use elrond_eth_bridge.Batch.Validator.Validated.{MakesRequests}
use elrond_eth_bridge.Relayers
use elrond_eth_bridge.Ethereum.Create.{new_ethereum_client}
use elrond_eth_bridge.StateMachine.Run.{Holds}
use elrond_eth_bridge.System.{Half, ethereum_to_elrond, elrond_to_ethereum, Services, System}
use elrond_eth_bridge.System.Create.{
  ArgsComponents, check_topology, new_system, new_bridges, new_components,
}
use elrond_eth_bridge.System.Safety.{IsReady}
use elrond_eth_bridge.System.Relayer.{Relayer, new_relayer, run_relayer}
use elrond_eth_bridge.System.Relayer.Runs.{WentWell, relayer_run_safe}

module _ {W : Type 0} (services : Services W) where
  open services use {chain}

  -- A quorum of the contract fits an `int64`, and a request to the microservice that a half asks, if
  -- any, can be made with the URL in its configuration.
  pub record IsConfigured : Type 0 where
    pub quorum_fits : (w : W) (q : ℕ) → (chain.quorum w).0 ≡ ok q → q < 2 ^ 63
    pub requests_made : (half : Half) → MakesRequests (services.of_half half).validator

  new_system-fresh :
      (args : ArgsComponents) (world : W) (system : System W)
      → new_system services args world ≡ ok system
      → (system.panicked ≡ false) × (system.ethereum.calls ≡ [])
  unfolding new_system new_ethereum_client
  new_system-fresh args world system made = ground (arith, made)

  checked_interval :
      (half : Half) (args : ArgsComponents)
      → check_topology services half args ≡ ok tt
      → 0 < (services.of_half half).interval_for_leader
  unfolding Relayers.check_args
  checked_interval half args checked = ground (arith, checked)

  -- What was made where the construction went well.
  record Made (args : ArgsComponents) (relayer : Relayer W) : Type 0 where
    system : System W
    calm : system.panicked ≡ false
    fresh : system.ethereum.calls ≡ []
    created : new_relayer services args.executor system ≡ ok relayer
    eth_checked : check_topology services ethereum_to_elrond args ≡ ok tt
    elrond_checked : check_topology services elrond_to_ethereum args ≡ ok tt

  new_bridges-made :
      (args : ArgsComponents) (system : System W) (relayer : Relayer W)
      → new_bridges services args system ≡ ok relayer
      → (new_relayer services args.executor system ≡ ok relayer)
        × (check_topology services ethereum_to_elrond args ≡ ok tt)
        × (check_topology services elrond_to_ethereum args ≡ ok tt)
  unfolding new_bridges
  new_bridges-made args system relayer made = ground (arith, made)

  new_components-Made :
      (args : ArgsComponents) (world : W) (relayer : Relayer W)
      → new_components services args world ≡ ok relayer
      → Made args relayer
  unfolding new_components
  new_components-Made args world relayer made =
      elim (Result-cases (new_system services args world)) [
        | inr (e, failed) ↦ absurd (ground (arith, failed, made))
        | inl (system, is) ↦
            let (calm, fresh) = new_system-fresh args world system is in
            let (created, eth_checked, elrond_checked) =
              new_bridges-made args system relayer (ground (arith, is, made)) in
            record {
              system = system;
              calm = calm;
              fresh = fresh;
              created = created;
              eth_checked = eth_checked;
              elrond_checked = elrond_checked;
            }
      ]

  ready :
      (args : ArgsComponents) (relayer : Relayer W)
      → IsConfigured
      → Made args relayer
      → IsReady services
  ready args relayer fits made = record {
    quorum_fits = fits.quorum_fits;
    requests_made = fits.requests_made;
    interval_positive = λ half.
        elim half as (λ (h : Half). 0 < (services.of_half h).interval_for_leader) [
          | ethereum_to_elrond ↦ checked_interval ethereum_to_elrond args made.eth_checked
          | elrond_to_ethereum ↦ checked_interval elrond_to_ethereum args made.elrond_checked
        ];
  }

  -- A relayer whose construction succeeds runs for any number of polls of its two machines, in any
  -- order, whatever the nodes, the other relayers and the services answer, so long as a quorum of the
  -- Ethereum contract fits an `int64` and requests to the validator's URL can be made: no poll panics
  -- or returns an error, no client panics, the requests of each half followed the rules of the bridge,
  -- and for every transaction that was sent to Ethereum the client had seen the contract unpaused, in
  -- the safe the sum of each token of the transfer, and on the relayer's account the fee; it has
  -- exactly as many signatures as the contract answers for its quorum in some state of the world.
  pub started_run_safe :
      (halves : List Half) (args : ArgsComponents) (world : W) (relayer : Relayer W)
      → IsConfigured
      → new_components services args world ≡ ok relayer
      → Holds (WentWell services (length halves)) (run_relayer services halves relayer)
  started_run_safe halves args world relayer fits created =
      let made = new_components-Made args world relayer created in
      relayer_run_safe services halves args.executor made.system relayer
        (ready args relayer fits made) made.calm made.fresh made.created
