-- ===== src/System/Safety.antt =====
-- The bridge executor on the two clients (factory/ethElrondBridgeComponents.go): runs of both
-- machines with everything below them.
use elrond_eth_bridge.Common.{ℕ, ◌^◌, ◌<◌, ◌≡◌, ◌≢◌, sym, false, some, none, Result, ok, err, arith}
use mathlib.Core.Path.{subst}
use elrond_eth_bridge.Common.Bytes.{Bytes}
use elrond_eth_bridge.Common.Int.{pos, int64}
use elrond_eth_bridge.Batch.{TransferBatch}
use elrond_eth_bridge.Batch.Validator.Validated.{MakesRequests, validate-Returns}
use elrond_eth_bridge.Relayers.Leader.{my_turn_at-some}
use elrond_eth_bridge.Ethereum.Batches.{get_batch}
use elrond_eth_bridge.Ethereum.Transfer.{was_executed, get_transactions_statuses, get_quorum_size}
use elrond_eth_bridge.Elrond
use elrond_eth_bridge.Bridge.Clients.{IsLawful}
use elrond_eth_bridge.Bridge.Kept.{AllKept}
use elrond_eth_bridge.System.{
  Half, ethereum_to_elrond, elrond_to_ethereum, Services, System, topology, proxy, elrond_client,
  ethereum_client, environment, ethereum_at, elrond_at, not_nil,
}
use elrond_eth_bridge.System.Amounts.{
  HasAmounts, BatchHas, generate_message_hash-some, get_batch-HasAmounts, get_pending-HasAmounts,
}
use elrond_eth_bridge.System.Quiet.{
  get_batch_log, check_client_availability_log, is_quorum_reached_log, broadcast_log,
}
use elrond_eth_bridge.System.Backed.{AllBacked, execute_transfer-AllBacked}

int64_small : (q : ℕ) → q < 2 ^ 63 → int64 q ≡ pos q
int64_small q h = ground (arith, h)

has_amounts :
    (r : Result TransferBatch) (b : TransferBatch)
    → BatchHas r
    → not_nil r ≡ ok (some b)
    → HasAmounts b.deposits
has_amounts (ok b') b h e = ground (arith, h, e)
has_amounts (err _) b h e = ground (arith, e)

module _ {W : Type 0} (services : Services W) where
  open services use {chain}

  -- No client has panicked, and every transaction that was sent to Ethereum is backed.
  unfoldable pub IsSafe : System W → Type 0
  IsSafe s = (s.panicked ≡ false) × AllBacked chain s.ethereum.calls

  -- A quorum of the contract fits an `int64`, a request to the microservice that a half asks, if
  -- any, can be made with the URL in its configuration, and the leader's interval of a half is not zero, as
  -- `NewTopologyHandler` checks.
  pub record IsReady : Type 0 where
    pub quorum_fits : (w : W) (q : ℕ) → (chain.quorum w).0 ≡ ok q → q < 2 ^ 63
    pub requests_made : (half : Half) → MakesRequests (services.of_half half).validator
    pub interval_positive : (half : Half) → 0 < (services.of_half half).interval_for_leader

module _ {W : Type 0} (services : Services W) (half : Half) where
  open services use {chain}

  pub environment-IsLawful : IsLawful (environment services half)
  unfolding environment elrond_client ethereum_client
  environment-IsLawful = record {
    get_pending_some =
        λ w h. nonempty (Elrond.Pending.get_pending (proxy services) (elrond_at services w)).0 h;
    get_batch_some = λ nonce w h. nonempty (get_batch chain nonce (ethereum_at services w)).0 h;
  }
    where
      nonempty : (r : Result TransferBatch) → not_nil r ≢ ok none
      nonempty (ok b) h = cc (h)
      nonempty (err e) h = cc (h)

  turn-IsSafe :
      (s : System W)
      → IsReady services
      → IsSafe services s
      → IsSafe services ((environment services half).my_turn_as_leader s).1
  unfolding environment topology
  turn-IsSafe s fits h =
      let (leads, answered) =
        my_turn_at-some services.hash (services.now s.world) (topology services half s)
          (fits.interval_positive half) in
      rw answered h

  quorum_asked :
      (s : System W) (q : ℕ)
      → ((environment services half).ethereum_client.get_quorum_size s).0 ≡ ok q
      → (chain.quorum s.world).0 ≡ ok q
  unfolding environment ethereum_client get_quorum_size
  quorum_asked s q h = h

  execute-IsSafe :
      (hash : Bytes) (b : TransferBatch) (q : ℕ) (v s : System W)
      → IsReady services
      → (chain.quorum v.world).0 ≡ ok q
      → HasAmounts b.deposits
      → IsSafe services s
      → IsSafe services
          ((environment services half).ethereum_client.execute_transfer hash b (int64 q) s).1
  unfolding environment ethereum_client IsSafe
  execute-IsSafe hash b q v s fits asked amounts h =
      let small : int64 q ≡ pos q = int64_small q (fits.quorum_fits v.world q asked) in
      rw small (
        ground (
          arith,
          h,
          execute_transfer-AllBacked chain (ethereum_at services s) hash b q v.world asked amounts
              h.1,
        ))

  clears :
      (h : Half) (s : System W)
      → IsSafe services s
      → IsSafe services ((environment services h).clear_stored_signatures s)
  unfolding environment IsSafe
  clears ethereum_to_elrond s h = h
  clears elrond_to_ethereum s h = h

  -- Every call of a client keeps the system safe, and the batches that are fetched have no nil
  -- amount.
  pub environment-AllKept :
      IsReady services → AllKept (environment services half) (IsSafe services) HasAmounts
  unfolding environment elrond_client ethereum_client IsSafe AllKept was_executed
      get_transactions_statuses get_quorum_size
  environment-AllKept fits = record {
    get_pending_kept = λ w h. h;
    pending_deposits = λ w b h e.
        has_amounts (Elrond.Pending.get_pending (proxy services) (elrond_at services w)).0 b
          (get_pending-HasAmounts (proxy services) (elrond_at services w)) e;
    was_proposed_transfer_kept = λ b w h. h;
    quorum_reached_kept = λ id w h. h;
    action_executed_kept = λ id w h. h;
    get_action_id_for_propose_transfer_kept = λ b w h. h;
    was_proposed_set_status_kept = λ b w h. h;
    get_action_id_for_set_status_kept = λ b w h. h;
    get_last_executed_eth_batch_id_kept = λ w h. h;
    get_last_executed_eth_tx_id_kept = λ w h. h;
    propose_set_status_kept = λ b w h. h;
    propose_transfer_kept = λ b w h. h;
    sign_kept = λ id w h. h;
    was_signed_kept = λ id w h. h;
    perform_action_kept = λ id b w h. h;
    elrond_availability_kept = λ w h. h;
    get_batch_kept = λ nonce w h. (
      h.0,
      subst (AllBacked chain) (sym (get_batch_log chain nonce (ethereum_at services w))) h.1,
    );
    batch_deposits = λ nonce w b h e.
        has_amounts (get_batch chain nonce (ethereum_at services w)).0 b
          (get_batch-HasAmounts chain nonce (ethereum_at services w)) e;
    transfer_executed_kept = λ id w h. h;
    message_hash_kept =
        λ b w h amounts. ground (arith, h, generate_message_hash-some chain b amounts);
    broadcast_kept =
        λ hash w h. ground (arith, h, broadcast_log chain hash (ethereum_at services w));
    get_quorum_size_kept = λ w h. h;
    execute_transfer_kept = λ hash b q v w hv asked amounts h.
        execute-IsSafe hash b q v w fits (quorum_asked v q asked) amounts h;
    get_transactions_statuses_kept = λ id w h. h;
    is_quorum_reached_kept =
        λ hash w h. ground (arith, h, is_quorum_reached_log chain hash (ethereum_at services w));
    ethereum_availability_kept = λ w h. (
      h.0,
      subst (AllBacked chain) (sym (check_client_availability_log chain (ethereum_at services w)))
          h.1,
    );
    my_turn_kept = λ w. turn-IsSafe w fits;
    validate_batch_kept = λ b w h. ground (
      arith,
      h,
      validate-Returns (services.of_half half).validator b w.world (fits.requests_made half),
    );
    clear_kept = λ w h. clears half w h;
    int_metric_kept = λ m v w h. h;
    string_metric_kept = λ m v w h. h;
    log_kept = λ l m w h. h;
    wait_kept = λ w h. h;
  }
