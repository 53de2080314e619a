-- ===== src/System/Lifecycle.antt =====
-- Start and Close of factory/ethElrondBridgeComponents.go, over the broadcaster and its world. The
-- wait for the bootstrap is left out, and the join loop is a list of ticks of its timer, after which
-- it is closed.
use elrond_eth_bridge.Common.{◌≡◌, refl, Option, some, none, List, [], ◌∷◌, Result, ok, err, Error}
use elrond_eth_bridge.Common.State.{State}
use elrond_eth_bridge.P2p.{Network, Broadcaster}
use elrond_eth_bridge.P2p.Create.{Messenger, register_on_topics}
use elrond_eth_bridge.P2p.Messages.{broadcast_join_topic}

-- The messenger's bootstrap, the polling handlers with their `StartProcessingLoop`, the closable
-- handlers with their `Close`, of which some may be nil, and the function that ends the join loop.
pub record Parts (W : Type 0) : Type 0 where
  pub bootstrap : State W (Result (Unit {0}))
  pub polling_handlers : List (State W (Result (Unit {0})))
  pub closable_handlers : List (Option (State W (Result (Unit {0}))))
  pub cancel_func : Option (W → W)

abbrev keep_error : Result (Unit {0}) → Option Error → Option Error
keep_error (ok _) last_error = last_error
keep_error (err e) last_error = some e

abbrev last_error_of : List (Result (Unit {0})) → Option Error → Option Error
last_error_of [] last_error = last_error
last_error_of (result ∷ results) last_error = last_error_of results (keep_error result last_error)

module _ {W : Type 0} where
  -- `startPollingHandlers`
  unfoldable pub start_polling_handlers :
      List (State W (Result (Unit {0}))) → State W (Result (Unit {0}))
  start_polling_handlers [] w = (ok tt, w)
  start_polling_handlers (handler ∷ handlers) w =
      let (result, after) = handler w in
      let rest = start_polling_handlers handlers after in
      elim result [ err e ↦ (err e, after) | ok _ ↦ rest ]

  -- The loop of `Close`, with the last error so far.
  unfoldable pub close_each :
      List (Option (State W (Result (Unit {0})))) → Option Error → State W (Option Error)
  close_each [] last_error w = (last_error, w)
  close_each (none ∷ handlers) last_error w = close_each handlers last_error w
  close_each (some closable ∷ handlers) last_error w =
      let (result, after) = closable w in close_each handlers (keep_error result last_error) after

  abbrev cancelled : Option (W → W) → W → W
  cancelled none w = w
  cancelled (some cancel) w = cancel w

  -- `Close`
  unfoldable pub close : Parts W → State W (Option Error)
  close parts w = close_each parts.closable_handlers none (cancelled parts.cancel_func w)

  -- The results of all handlers, one after the other, whatever they return.
  abbrev all_results :
      List (Option (State W (Result (Unit {0})))) → W → List (Result (Unit {0})) × W
  all_results [] w = ([], w)
  all_results (none ∷ handlers) w = all_results handlers w
  all_results (some closable ∷ handlers) w =
      let first = closable w in
      let rest = all_results handlers first.1 in (first.0 ∷ rest.0, rest.1)

  close_each-all_results :
      (handlers : List (Option (State W (Result (Unit {0}))))) (last_error : Option Error) (w : W)
      → close_each handlers last_error w
        ≡ (last_error_of (all_results handlers w).0 last_error, (all_results handlers w).1)
  unfolding close_each
  close_each-all_results [] last_error w = refl
  close_each-all_results (none ∷ handlers) last_error w =
      close_each-all_results handlers last_error w
  close_each-all_results (some closable ∷ handlers) last_error w =
      close_each-all_results handlers (keep_error (closable w).0 last_error) (closable w).1

  -- Close calls every handler that is not nil, in the order in which they were added and also after an
  -- error, and returns the last error of theirs, where there is one.
  close-all_results :
      (parts : Parts W) (w : W)
      → let closed = all_results parts.closable_handlers (cancelled parts.cancel_func w) in
        close parts w ≡ (last_error_of closed.0 none, closed.1)
  unfolding close
  close-all_results parts w =
      close_each-all_results parts.closable_handlers none (cancelled parts.cancel_func w)

module _ {W K : Type 0} (net : Network W K) (messenger : Messenger W) (parts : Parts W) where
  abbrev in_world : {A : Type 0} → State W A → State (Broadcaster W) A
  in_world f b = ((f b.world).0, record b { world = (f b.world).1 })

  -- `Start`
  unfoldable pub start : State (Broadcaster W) (Result (Unit {0}))
  start b =
      let (bootstrapped, booted) = in_world parts.bootstrap b in
      let (registered, listening) = register_on_topics messenger booted in
      let joined = (broadcast_join_topic net listening).1 in
      elim bootstrapped [
        | err e ↦ (err e, booted)
        | ok _ ↦ elim registered [
          | err e ↦ (err e, listening)
          | ok _ ↦ in_world (start_polling_handlers parts.polling_handlers) joined
        ]
      ]

  -- `startBroadcastJoinRetriesLoop`
  unfoldable pub broadcast_join_retries : List (Unit {0}) → State (Broadcaster W) (Unit {0})
  broadcast_join_retries [] b = (tt, b)
  broadcast_join_retries (_ ∷ ticks) b = broadcast_join_retries ticks (broadcast_join_topic net b).1
