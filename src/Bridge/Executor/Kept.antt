-- ===== src/Bridge/Executor/Kept.antt =====
-- The methods of bridges/ethElrond/bridgeExecutor.go keep what the clients keep.
use elrond_eth_bridge.Common.{
  ℕ, zero, suc, ◌≡◌, String, Bool, true, false, Option, none, some, List, Result, ok, err, arith,
  Option-cases, inl, inr,
}
use elrond_eth_bridge.Common.Int.{ℤ}
use elrond_eth_bridge.Common.Text.{with_colon}
use mathlib.Core.Path.{subst}
use elrond_eth_bridge.Batch.{Bytes, DepositTransfer, TransferBatch, resolve_new_deposits}
use elrond_eth_bridge.Bridge.Clients.{
  LogLevel, log_debug, log_info, log_warning, log_error, Environment,
}
use elrond_eth_bridge.Bridge.Kept.{IsKept, Fits, DepositsOf}
use elrond_eth_bridge.Bridge.Monad.{Bridge, M, pure, Gives, Leaves, Leaves->>=}
use elrond_eth_bridge.Bridge.Executor.{
  splits, print_info, set_execution_message_in_status_handler, my_turn_as_leader,
  get_batch_from_elrond, store_batch_from_elrond, get_stored_batch,
  get_last_executed_eth_batch_id_from_elrond, verify_last_deposit_nonce_executed_on_ethereum_batch,
  get_and_store_action_id_for_propose_transfer_on_elrond,
  get_and_store_action_id_for_propose_set_status_from_elrond, was_transfer_proposed_on_elrond,
  propose_transfer_on_elrond, process_max_retries_on_was_transfer_proposed_on_elrond,
  reset_retries_on_was_transfer_proposed_on_elrond, was_set_status_proposed_on_elrond,
  propose_set_status_on_elrond, was_action_signed_on_elrond, sign_action_on_elrond,
  process_quorum_reached_on_elrond, was_transfer_performed_on_ethereum, wait_round,
  wait_for_transfer_confirmation_from, wait_for_transfer_confirmation,
  get_batch_statuses_from_ethereum, status_round, wait_and_return_final_batch_statuses_from,
  wait_and_return_final_batch_statuses, was_action_performed_on_elrond, perform_action_on_elrond,
  resolve_new_deposits_statuses, process_max_quorum_retries_on_elrond,
  reset_retries_count_on_elrond, get_and_store_batch_from_ethereum, sign_transfer_on_ethereum,
  perform_transfer_on_ethereum, process_quorum_reached_on_ethereum,
  process_max_quorum_retries_on_ethereum, reset_retries_count_on_ethereum,
  clear_stored_p2p_signatures_for_ethereum, validate_batch, check_elrond_client_availability,
  check_ethereum_client_availability,
}

module _ {W : Type 0} (env : Environment W) (P : W → Type 0)
    (D : List DepositTransfer → Type 0) where
  open env use {elrond_client, ethereum_client}

  -- The deposits of a fetched batch.
  abbrev pub Fetched : Result (Option TransferBatch) → Bridge W → Type 0
  Fetched (ok (some b)) t = Fits P D t × D b.deposits
  Fetched (ok none) t = Fits P D t
  Fetched (err e) t = Fits P D t

  fetches_pending :
      (s : Bridge W)
      → Fits P D s
      → ((v : ℤ) → P (env.set_int_metric "num batches" v (elrond_client.get_pending s.world).1))
      → P (elrond_client.get_pending s.world).1
      → ((b : TransferBatch) → (elrond_client.get_pending s.world).0 ≡ ok (some b) → D b.deposits)
      → Gives Fetched (get_batch_from_elrond env s)
  unfolding get_batch_from_elrond Fits
  fetches_pending s h counted kept_w given = grind (arith, counted, given)

  stores_batch :
      (nonce : ℕ) (s : Bridge W)
      → Fits P D s
      → P (ethereum_client.get_batch nonce s.world).1
      → ((b : TransferBatch)
          → (ethereum_client.get_batch nonce s.world).0 ≡ ok (some b)
          → D b.deposits)
      → Leaves (Fits P D) (get_and_store_batch_from_ethereum env nonce s)
  unfolding get_and_store_batch_from_ethereum Fits
  stores_batch nonce s h kept_w given = grind (arith, given)

  asks_performed :
      (s : Bridge W)
      → let waited : Bridge W = record s { world = (env.wait s.world).1 } in
        Fits P D waited
        → Leaves (Fits P D) (was_transfer_performed_on_ethereum env waited)
        → Leaves (Fits P D) (wait_round env s)
  unfolding wait_round
  asks_performed s h k = ground (arith, h, k)

  asks_statuses :
      (s : Bridge W)
      → let waited : Bridge W = record s { world = (env.wait s.world).1 } in
        Fits P D waited
        → Leaves (Fits P D) (get_batch_statuses_from_ethereum env waited)
        → Leaves (Fits P D) (status_round env s)
  unfolding status_round
  asks_statuses s h k = ground (arith, h, k)

module _ {W : Type 0} (env : Environment W) (P : W → Type 0) (D : List DepositTransfer → Type 0)
    (kept : IsKept env P D) where
  open env use {elrond_client, ethereum_client}

  pub print_info-Fits :
      (l : LogLevel) (m : String) (s : Bridge W)
      → Fits P D s
      → Leaves (Fits P D) (print_info env l m s)
  unfolding print_info set_execution_message_in_status_handler Fits
  print_info-Fits log_debug m s h = ground (arith, kept.log_kept log_debug m s.world h.0)
  print_info-Fits log_info m s h = ground (arith, kept.log_kept log_info m s.world h.0)
  print_info-Fits log_warning m s h = ground (
    arith,
    kept.string_metric_kept "last encountered error" (with_colon (env.level_text log_warning) m)
        (env.log log_warning m s.world) (kept.log_kept log_warning m s.world h.0),
  )
  print_info-Fits log_error m s h = ground (
    arith,
    kept.string_metric_kept "last encountered error" (with_colon (env.level_text log_error) m)
        (env.log log_error m s.world) (kept.log_kept log_error m s.world h.0),
  )

  pub my_turn_as_leader-Fits :
      (s : Bridge W) → Fits P D s → Leaves (Fits P D) (my_turn_as_leader env s)
  unfolding my_turn_as_leader Fits
  my_turn_as_leader-Fits s h = ground (arith, kept.my_turn_kept s.world h.0)

  pub get_batch_from_elrond-Fetched :
      (s : Bridge W) → Fits P D s → Gives (Fetched env P D) (get_batch_from_elrond env s)
  unfolding Fits
  get_batch_from_elrond-Fetched s h =
      let w : W = (elrond_client.get_pending s.world).1 in
      let kept_w : P w = kept.get_pending_kept s.world h.0 in
      fetches_pending env P D s h (λ v. kept.int_metric_kept "num batches" v w kept_w) kept_w
        λ b. kept.pending_deposits s.world b h.0

  pub get_stored_batch-Fits :
      (s : Bridge W) → Fits P D s → Leaves (Fits P D) (get_stored_batch env s)
  unfolding get_stored_batch Fits
  get_stored_batch-Fits s h = ground arith

  pub get_last_executed_eth_batch_id_from_elrond-Fits :
      (s : Bridge W)
      → Fits P D s
      → Leaves (Fits P D) (get_last_executed_eth_batch_id_from_elrond env s)
  unfolding get_last_executed_eth_batch_id_from_elrond Fits
  get_last_executed_eth_batch_id_from_elrond-Fits s h =
      let w : W = (elrond_client.get_last_executed_eth_batch_id s.world).1 in
      let kept_w : P w = kept.get_last_executed_eth_batch_id_kept s.world h.0 in
      grind (arith, kept_w, λ (v : ℤ). kept.int_metric_kept "num batches" v w kept_w)

  pub verify_last_deposit_nonce_executed_on_ethereum_batch-Fits :
      (s : Bridge W)
      → Fits P D s
      → Leaves (Fits P D) (verify_last_deposit_nonce_executed_on_ethereum_batch env s)
  unfolding verify_last_deposit_nonce_executed_on_ethereum_batch Fits
  verify_last_deposit_nonce_executed_on_ethereum_batch-Fits s h =
      ground (arith, kept.get_last_executed_eth_tx_id_kept s.world h.0)

  pub get_and_store_action_id_for_propose_transfer_on_elrond-Fits :
      (s : Bridge W)
      → Fits P D s
      → Leaves (Fits P D) (get_and_store_action_id_for_propose_transfer_on_elrond env s)
  unfolding get_and_store_action_id_for_propose_transfer_on_elrond Fits
  get_and_store_action_id_for_propose_transfer_on_elrond-Fits s h =
      grind
        (arith, λ (b : TransferBatch). kept.get_action_id_for_propose_transfer_kept b s.world h.0)

  pub get_and_store_action_id_for_propose_set_status_from_elrond-Fits :
      (s : Bridge W)
      → Fits P D s
      → Leaves (Fits P D) (get_and_store_action_id_for_propose_set_status_from_elrond env s)
  unfolding get_and_store_action_id_for_propose_set_status_from_elrond Fits
  get_and_store_action_id_for_propose_set_status_from_elrond-Fits s h =
      grind (arith, λ (b : TransferBatch). kept.get_action_id_for_set_status_kept b s.world h.0)

  pub was_transfer_proposed_on_elrond-Fits :
      (s : Bridge W) → Fits P D s → Leaves (Fits P D) (was_transfer_proposed_on_elrond env s)
  unfolding was_transfer_proposed_on_elrond Fits
  was_transfer_proposed_on_elrond-Fits s h =
      grind (arith, λ (b : TransferBatch). kept.was_proposed_transfer_kept b s.world h.0)

  pub propose_transfer_on_elrond-Fits :
      (s : Bridge W) → Fits P D s → Leaves (Fits P D) (propose_transfer_on_elrond env s)
  unfolding propose_transfer_on_elrond Fits
  propose_transfer_on_elrond-Fits s h =
      grind (arith, λ (b : TransferBatch). kept.propose_transfer_kept b s.world h.0)

  pub was_set_status_proposed_on_elrond-Fits :
      (s : Bridge W) → Fits P D s → Leaves (Fits P D) (was_set_status_proposed_on_elrond env s)
  unfolding was_set_status_proposed_on_elrond Fits
  was_set_status_proposed_on_elrond-Fits s h =
      grind (arith, λ (b : TransferBatch). kept.was_proposed_set_status_kept b s.world h.0)

  pub propose_set_status_on_elrond-Fits :
      (s : Bridge W) → Fits P D s → Leaves (Fits P D) (propose_set_status_on_elrond env s)
  unfolding propose_set_status_on_elrond Fits
  propose_set_status_on_elrond-Fits s h =
      grind (arith, λ (b : TransferBatch). kept.propose_set_status_kept b s.world h.0)

  pub process_max_retries_on_was_transfer_proposed_on_elrond-Fits :
      (s : Bridge W)
      → Fits P D s
      → Leaves (Fits P D) (process_max_retries_on_was_transfer_proposed_on_elrond env s)
  unfolding process_max_retries_on_was_transfer_proposed_on_elrond Fits
  process_max_retries_on_was_transfer_proposed_on_elrond-Fits s h = ground arith

  pub reset_retries_on_was_transfer_proposed_on_elrond-Fits :
      (s : Bridge W)
      → Fits P D s
      → Leaves (Fits P D) (reset_retries_on_was_transfer_proposed_on_elrond env s)
  unfolding reset_retries_on_was_transfer_proposed_on_elrond Fits
  reset_retries_on_was_transfer_proposed_on_elrond-Fits s h = ground arith

  pub process_max_quorum_retries_on_elrond-Fits :
      (s : Bridge W) → Fits P D s → Leaves (Fits P D) (process_max_quorum_retries_on_elrond env s)
  unfolding process_max_quorum_retries_on_elrond Fits
  process_max_quorum_retries_on_elrond-Fits s h = ground arith

  pub reset_retries_count_on_elrond-Fits :
      (s : Bridge W) → Fits P D s → Leaves (Fits P D) (reset_retries_count_on_elrond env s)
  unfolding reset_retries_count_on_elrond Fits
  reset_retries_count_on_elrond-Fits s h = ground arith

  pub process_max_quorum_retries_on_ethereum-Fits :
      (s : Bridge W) → Fits P D s → Leaves (Fits P D) (process_max_quorum_retries_on_ethereum env s)
  unfolding process_max_quorum_retries_on_ethereum Fits
  process_max_quorum_retries_on_ethereum-Fits s h = ground arith

  pub reset_retries_count_on_ethereum-Fits :
      (s : Bridge W) → Fits P D s → Leaves (Fits P D) (reset_retries_count_on_ethereum env s)
  unfolding reset_retries_count_on_ethereum Fits
  reset_retries_count_on_ethereum-Fits s h = ground arith

  pub was_action_signed_on_elrond-Fits :
      (s : Bridge W) → Fits P D s → Leaves (Fits P D) (was_action_signed_on_elrond env s)
  unfolding was_action_signed_on_elrond Fits
  was_action_signed_on_elrond-Fits s h =
      ground (arith, kept.was_signed_kept s.executor.action_id s.world h.0)

  pub sign_action_on_elrond-Fits :
      (s : Bridge W) → Fits P D s → Leaves (Fits P D) (sign_action_on_elrond env s)
  unfolding sign_action_on_elrond Fits
  sign_action_on_elrond-Fits s h = ground (arith, kept.sign_kept s.executor.action_id s.world h.0)

  pub process_quorum_reached_on_elrond-Fits :
      (s : Bridge W) → Fits P D s → Leaves (Fits P D) (process_quorum_reached_on_elrond env s)
  unfolding process_quorum_reached_on_elrond Fits
  process_quorum_reached_on_elrond-Fits s h =
      ground (arith, kept.quorum_reached_kept s.executor.action_id s.world h.0)

  pub was_action_performed_on_elrond-Fits :
      (s : Bridge W) → Fits P D s → Leaves (Fits P D) (was_action_performed_on_elrond env s)
  unfolding was_action_performed_on_elrond Fits
  was_action_performed_on_elrond-Fits s h =
      ground (arith, kept.action_executed_kept s.executor.action_id s.world h.0)

  pub was_transfer_performed_on_ethereum-Fits :
      (s : Bridge W) → Fits P D s → Leaves (Fits P D) (was_transfer_performed_on_ethereum env s)
  unfolding was_transfer_performed_on_ethereum Fits
  was_transfer_performed_on_ethereum-Fits s h =
      grind (arith, λ (b : TransferBatch). kept.transfer_executed_kept b.id s.world h.0)

  pub get_batch_statuses_from_ethereum-Fits :
      (s : Bridge W) → Fits P D s → Leaves (Fits P D) (get_batch_statuses_from_ethereum env s)
  unfolding get_batch_statuses_from_ethereum Fits
  get_batch_statuses_from_ethereum-Fits s h =
      grind (arith, λ (b : TransferBatch). kept.get_transactions_statuses_kept b.id s.world h.0)

  pub perform_action_on_elrond-Fits :
      (s : Bridge W) → Fits P D s → Leaves (Fits P D) (perform_action_on_elrond env s)
  unfolding perform_action_on_elrond Fits
  perform_action_on_elrond-Fits s h =
      grind
        (arith, λ (b : TransferBatch). kept.perform_action_kept s.executor.action_id b s.world h.0)

  pub process_quorum_reached_on_ethereum-Fits :
      (s : Bridge W) → Fits P D s → Leaves (Fits P D) (process_quorum_reached_on_ethereum env s)
  unfolding process_quorum_reached_on_ethereum Fits
  process_quorum_reached_on_ethereum-Fits s h =
      ground (arith, kept.is_quorum_reached_kept s.executor.msg_hash s.world h.0)

  pub clear_stored_p2p_signatures_for_ethereum-Fits :
      (s : Bridge W)
      → Fits P D s
      → Leaves (Fits P D) (clear_stored_p2p_signatures_for_ethereum env s)
  unfolding clear_stored_p2p_signatures_for_ethereum Fits
  clear_stored_p2p_signatures_for_ethereum-Fits s h = ground (arith, kept.clear_kept s.world h.0)

  pub validate_batch-Fits :
      (b : TransferBatch) (s : Bridge W) → Fits P D s → Leaves (Fits P D) (validate_batch env b s)
  unfolding validate_batch Fits
  validate_batch-Fits b s h = ground (arith, kept.validate_batch_kept b s.world h.0)

  pub check_elrond_client_availability-Fits :
      (s : Bridge W) → Fits P D s → Leaves (Fits P D) (check_elrond_client_availability env s)
  unfolding check_elrond_client_availability Fits
  check_elrond_client_availability-Fits s h =
      ground (arith, kept.elrond_availability_kept s.world h.0)

  pub check_ethereum_client_availability-Fits :
      (s : Bridge W) → Fits P D s → Leaves (Fits P D) (check_ethereum_client_availability env s)
  unfolding check_ethereum_client_availability Fits
  check_ethereum_client_availability-Fits s h =
      ground (arith, kept.ethereum_availability_kept s.world h.0)

  pub sign_transfer_on_ethereum-Fits :
      (s : Bridge W) → Fits P D s → Leaves (Fits P D) (sign_transfer_on_ethereum env s)
  unfolding sign_transfer_on_ethereum Fits
  sign_transfer_on_ethereum-Fits s h = elim (Option-cases s.executor.batch) [
    | inl nothing ↦ ground (arith, h, nothing)
    | inr (b, stored) ↦
        let w : W = ethereum_client.after_generate_message_hash b s.world in
        let kept_w : P w =
          kept.message_hash_kept b s.world h.0 (subst (DepositsOf P D) stored h.1) in
        grind (arith, h, stored, kept_w, λ (hash : Bytes). kept.broadcast_kept hash w kept_w)
  ]

  pub perform_transfer_on_ethereum-Fits :
      (s : Bridge W) → Fits P D s → Leaves (Fits P D) (perform_transfer_on_ethereum env s)
  unfolding perform_transfer_on_ethereum Fits
  perform_transfer_on_ethereum-Fits s h =
      let w : W = (ethereum_client.get_quorum_size s.world).1 in
      let kept_w : P w = kept.get_quorum_size_kept s.world h.0 in
      grind (
        arith,
        kept_w,
        λ (b : TransferBatch) (q : ℕ) (asked : (ethereum_client.get_quorum_size s.world).0 ≡ ok q)
              (given : D b.deposits).
            kept.execute_transfer_kept s.executor.msg_hash b q s.world w h.0 asked given kept_w,
      )

  pub get_and_store_batch_from_ethereum-Fits :
      (nonce : ℕ) (s : Bridge W)
      → Fits P D s
      → Leaves (Fits P D) (get_and_store_batch_from_ethereum env nonce s)
  unfolding Fits
  get_and_store_batch_from_ethereum-Fits nonce s h =
      stores_batch env P D nonce s h (kept.get_batch_kept nonce s.world h.0)
        λ b. kept.batch_deposits nonce s.world b h.0

  pub store_batch_from_elrond-Fits :
      (b : TransferBatch) (s : Bridge W)
      → D b.deposits
      → Fits P D s
      → Leaves (Fits P D) (store_batch_from_elrond env (some b) s)
  unfolding store_batch_from_elrond Fits
  store_batch_from_elrond-Fits b s given h = ground (arith, given)

  pub resolve_new_deposits_statuses-Fits :
      (n : ℕ) (s : Bridge W)
      → Fits P D s
      → Leaves (Fits P D) (resolve_new_deposits_statuses env n s)
  unfolding resolve_new_deposits_statuses resolve_new_deposits Fits
  resolve_new_deposits_statuses-Fits n s h = ground arith

  after_wait : (s : Bridge W) → Fits P D s → Fits P D (record s { world = (env.wait s.world).1 })
  unfolding Fits
  after_wait s h = (kept.wait_kept s.world h.0, h.1)

  wait_round-Fits : (s : Bridge W) → Fits P D s → Leaves (Fits P D) (wait_round env s)
  wait_round-Fits s h =
      let waited : Bridge W = record s { world = (env.wait s.world).1 } in
      asks_performed env P D s (after_wait s h)
        (was_transfer_performed_on_ethereum-Fits waited (after_wait s h))

  confirmation_from-Fits :
      (n : ℕ) (p : Bool) (s : Bridge W)
      → Fits P D s
      → Leaves (Fits P D) (wait_for_transfer_confirmation_from env n p s)
  unfolding wait_for_transfer_confirmation_from
  confirmation_from-Fits zero p s h = h
  confirmation_from-Fits (suc n) true s h = h
  confirmation_from-Fits (suc n) false s h =
      Leaves->>= (Fits P D) (wait_round env) (λ p. wait_for_transfer_confirmation_from env n p) s
        (wait_round-Fits s h) λ p t k. confirmation_from-Fits n p t k

  pub wait_for_transfer_confirmation-Fits :
      (s : Bridge W) → Fits P D s → Leaves (Fits P D) (wait_for_transfer_confirmation env s)
  unfolding wait_for_transfer_confirmation
  wait_for_transfer_confirmation-Fits s h = confirmation_from-Fits splits false s h

  status_round-Fits : (s : Bridge W) → Fits P D s → Leaves (Fits P D) (status_round env s)
  status_round-Fits s h =
      let waited : Bridge W = record s { world = (env.wait s.world).1 } in
      asks_statuses env P D s (after_wait s h)
        (get_batch_statuses_from_ethereum-Fits waited (after_wait s h))

  after_status_round :
      (n : ℕ) (r : Option Bytes) (t : Bridge W)
      → Leaves (Fits P D) (wait_and_return_final_batch_statuses_from env n t)
      → Fits P D t
      → Leaves (Fits P D) (
          (elim r as (λ _. M W Bytes) [
            | some statuses ↦ pure statuses
            | none ↦ wait_and_return_final_batch_statuses_from env n
          ])
            t)
  after_status_round n none t h k = h
  after_status_round n (some statuses) t h k = k

  statuses_from-Fits :
      (n : ℕ) (s : Bridge W)
      → Fits P D s
      → Leaves (Fits P D) (wait_and_return_final_batch_statuses_from env n s)
  unfolding wait_and_return_final_batch_statuses_from
  statuses_from-Fits zero s h = h
  statuses_from-Fits (suc n) s h =
      Leaves->>= (Fits P D) (status_round env) _ s (status_round-Fits s h)
        λ r t k. after_status_round n r t (statuses_from-Fits n t k) k

  pub wait_and_return_final_batch_statuses-Fits :
      (s : Bridge W) → Fits P D s → Leaves (Fits P D) (wait_and_return_final_batch_statuses env s)
  unfolding wait_and_return_final_batch_statuses
  wait_and_return_final_batch_statuses-Fits s h = statuses_from-Fits splits s h
