-- ===== src/ElrondToEth/Invariant.antt =====
-- What holds of the executor before each step of the Elrond to Ethereum half-bridge.
use elrond_eth_bridge.Common.{
  ℕ, ◌≡◌, ◌≢◌, Bool, true, false, ok, [], ◌∷◌, arith, Elem, length, Option-cases, inl, inr,
}
use elrond_eth_bridge.Batch.{Bytes, TransferBatch}
use elrond_eth_bridge.Batch.Resolve.{resolve_new_deposits-id}
use elrond_eth_bridge.Bridge.Clients.{Environment, IsLawful}
use elrond_eth_bridge.Bridge.Monad.{
  Bridge, batch_validated, quorum_on_elrond, quorum_on_ethereum, was_transfer_executed, Returns,
  Returns->>=,
}
use elrond_eth_bridge.Bridge.Executor.{
  invalid_action_id, print_info, my_turn_as_leader, get_batch_from_elrond, store_batch_from_elrond,
  get_stored_batch, get_and_store_action_id_for_propose_set_status_from_elrond,
  process_max_retries_on_was_transfer_proposed_on_elrond,
  reset_retries_on_was_transfer_proposed_on_elrond, was_set_status_proposed_on_elrond,
  propose_set_status_on_elrond, was_action_signed_on_elrond, sign_action_on_elrond,
  process_quorum_reached_on_elrond, was_transfer_performed_on_ethereum,
  wait_for_transfer_confirmation, wait_and_return_final_batch_statuses,
  was_action_performed_on_elrond, perform_action_on_elrond, resolve_new_deposits_statuses,
  process_max_quorum_retries_on_elrond, reset_retries_count_on_elrond, sign_transfer_on_ethereum,
  perform_transfer_on_ethereum, process_quorum_reached_on_ethereum,
  process_max_quorum_retries_on_ethereum, reset_retries_count_on_ethereum,
  clear_stored_p2p_signatures_for_ethereum, validate_batch, check_elrond_client_availability,
  check_ethereum_client_availability,
}
use elrond_eth_bridge.Bridge.Executor.Waits.{
  IsSteady, Answers, wait_for_transfer_confirmation-steady, wait_for_statuses-Answers,
}
use elrond_eth_bridge.Bridge.Protocol.{FollowsRules, Stored}
use elrond_eth_bridge.ElrondToEth.{
  Step, getting_pending_batch_from_elrond, signing_proposed_transfer_on_ethereum,
  waiting_for_quorum_on_transfer, performing_transfer, waiting_transfer_confirmation,
  resolving_set_status_on_elrond, proposing_set_status_on_elrond,
  signing_proposed_set_status_on_elrond, waiting_for_quorum_on_set_status, performing_set_status,
  get_pending, store_and_validate, sign_proposed_transfer, wait_for_quorum_on_transfer,
  perform_transfer, wait_transfer_confirmation, store_statuses, resolve_statuses,
  resolve_set_status, propose_set_status, sign_proposed_set_status, wait_for_quorum_on_set_status,
  perform_set_status, execute,
}

-- The steps that work on the transfer, up to its confirmation.
abbrev transfers : Step → Bool
transfers signing_proposed_transfer_on_ethereum = true
transfers waiting_for_quorum_on_transfer = true
transfers performing_transfer = true
transfers waiting_transfer_confirmation = true
transfers _ = false

-- Of these, the steps after the signature, and the steps after the quorum.
abbrev has_signed : Step → Bool
has_signed waiting_for_quorum_on_transfer = true
has_signed performing_transfer = true
has_signed waiting_transfer_confirmation = true
has_signed _ = false

abbrev has_quorum : Step → Bool
has_quorum performing_transfer = true
has_quorum waiting_transfer_confirmation = true
has_quorum _ = false

-- The steps that report the statuses of an executed transfer.
abbrev reports : Step → Bool
reports resolving_set_status_on_elrond = true
reports proposing_set_status_on_elrond = true
reports signing_proposed_set_status_on_elrond = true
reports waiting_for_quorum_on_set_status = true
reports performing_set_status = true
reports _ = false

module _ {W : Type 0} (env : Environment W) where
  open env use {ethereum_client}

  -- While the transfer is worked on the stored batch was validated; after the signature the message
  -- hash is that of the stored batch, and before the transfer is performed the quorum was reached
  -- for that hash. While statuses are reported Ethereum has executed the stored batch. An action
  -- that is waited for or performed has a valid ID, and the quorum was reached for the action that
  -- is performed. The calls so far follow the rules.
  pub record Inv (step : Step) (s : Bridge W) : Type 0 where
    pub validated :
        transfers step ≡ true → Stored (λ b. Elem (batch_validated b true) s.calls) s.executor.batch
    pub hashed :
        has_signed step ≡ true
        → Stored
            (λ b. ethereum_client.generate_message_hash b ≡ ok s.executor.msg_hash)
            s.executor.batch
    pub agreed : has_quorum step ≡ true → Elem (quorum_on_ethereum s.executor.msg_hash true) s.calls
    pub executed :
        reports step ≡ true
        → Stored (λ b. Elem (was_transfer_executed b.id true) s.calls) s.executor.batch
    pub action_waited :
        step ≡ waiting_for_quorum_on_set_status → s.executor.action_id ≢ invalid_action_id
    pub action_agreed :
        step ≡ performing_set_status
        → (s.executor.action_id ≢ invalid_action_id)
          × Elem (quorum_on_elrond s.executor.action_id true) s.calls
    pub rules : FollowsRules ethereum_client.generate_message_hash s.calls

  store_and_validate-Inv :
      (b : TransferBatch) (s : Bridge W)
      → FollowsRules ethereum_client.generate_message_hash s.calls
      → Returns Inv (store_and_validate env b s)
  unfolding store_and_validate store_batch_from_elrond validate_batch
      was_transfer_performed_on_ethereum print_info
  store_and_validate-Inv b s h = ground arith

  get_pending-Inv :
      (s : Bridge W)
      → IsLawful env
      → Inv getting_pending_batch_from_elrond s
      → Returns Inv (get_pending env s)
  unfolding get_pending check_elrond_client_availability check_ethereum_client_availability
      reset_retries_count_on_ethereum reset_retries_count_on_elrond
      reset_retries_on_was_transfer_proposed_on_elrond get_batch_from_elrond print_info
  get_pending-Inv s law h = grind (arith, law.get_pending_some, store_and_validate-Inv)

  sign_proposed_transfer-Inv :
      (s : Bridge W)
      → Inv signing_proposed_transfer_on_ethereum s
      → Returns Inv (sign_proposed_transfer env s)
  unfolding sign_proposed_transfer get_stored_batch sign_transfer_on_ethereum print_info
  sign_proposed_transfer-Inv s h = ground arith

  wait_for_quorum_on_transfer-Inv :
      (s : Bridge W)
      → Inv waiting_for_quorum_on_transfer s
      → Returns Inv (wait_for_quorum_on_transfer env s)
  unfolding wait_for_quorum_on_transfer process_max_quorum_retries_on_ethereum
      process_quorum_reached_on_ethereum print_info
  wait_for_quorum_on_transfer-Inv s h = ground arith

  perform_transfer-Inv :
      (s : Bridge W) → Inv performing_transfer s → Returns Inv (perform_transfer env s)
  unfolding perform_transfer was_transfer_performed_on_ethereum my_turn_as_leader
      perform_transfer_on_ethereum print_info
  perform_transfer-Inv s h = ground arith

  propose_set_status-Inv :
      (s : Bridge W) → Inv proposing_set_status_on_elrond s → Returns Inv (propose_set_status env s)
  unfolding propose_set_status get_stored_batch
      process_max_retries_on_was_transfer_proposed_on_elrond was_set_status_proposed_on_elrond
      my_turn_as_leader propose_set_status_on_elrond print_info
  propose_set_status-Inv s h = ground arith

  sign_proposed_set_status-Inv :
      (s : Bridge W)
      → Inv signing_proposed_set_status_on_elrond s
      → Returns Inv (sign_proposed_set_status env s)
  unfolding sign_proposed_set_status get_stored_batch
      get_and_store_action_id_for_propose_set_status_from_elrond was_action_signed_on_elrond
      sign_action_on_elrond print_info
  sign_proposed_set_status-Inv s h = ground arith

  wait_for_quorum_on_set_status-Inv :
      (s : Bridge W)
      → Inv waiting_for_quorum_on_set_status s
      → Returns Inv (wait_for_quorum_on_set_status env s)
  unfolding wait_for_quorum_on_set_status process_max_quorum_retries_on_elrond
      process_quorum_reached_on_elrond print_info
  wait_for_quorum_on_set_status-Inv s h = ground arith

  perform_set_status-Inv :
      (s : Bridge W) → Inv performing_set_status s → Returns Inv (perform_set_status env s)
  unfolding perform_set_status was_action_performed_on_elrond my_turn_as_leader
      perform_action_on_elrond print_info
  perform_set_status-Inv s h = ground arith

  waiting-IsSteady : IsSteady env (Inv waiting_transfer_confirmation)
  waiting-IsSteady = record {
    over_time = λ s w h. ground arith;
    answered = λ s b a e h. ground arith;
  }

  wait_transfer_confirmation-Inv :
      (s : Bridge W)
      → Inv waiting_transfer_confirmation s
      → Returns Inv (wait_transfer_confirmation env s)
  unfolding wait_transfer_confirmation
  wait_transfer_confirmation-Inv s h =
      Returns->>= (λ _ t. Inv waiting_transfer_confirmation t) Inv
        (wait_for_transfer_confirmation env) _ s
        (wait_for_transfer_confirmation-steady env _ s waiting-IsSteady h) λ _ t k. ground arith

  store_statuses-Inv :
      (statuses : Bytes) (n : ℕ) (s : Bridge W)
      → Inv resolving_set_status_on_elrond s
      → Returns Inv (store_statuses env statuses n s)
  unfolding store_statuses resolve_new_deposits_statuses
  store_statuses-Inv [] n s h = ground arith
  store_statuses-Inv (x ∷ xs) n s h = grind (arith, resolve_new_deposits-id)

  resolve_statuses-Inv :
      (b : TransferBatch) (s : Bridge W)
      → Inv resolving_set_status_on_elrond s
      → Returns Inv (resolve_statuses env b s)
  unfolding resolve_statuses
  resolve_statuses-Inv b s h = elim (Option-cases s.executor.batch) [
    | inl nothing ↦ absurd (ground (arith, h.executed (λ i. true), nothing))
    | inr (stored, is) ↦
        Returns->>= (Answers env stored.id s) Inv (wait_and_return_final_batch_statuses env) _ s
          (wait_for_statuses-Answers env stored s is)
          λ statuses t (_, k). store_statuses-Inv statuses (length b.statuses) t (ground arith)
  ]

  resolve_set_status-Inv :
      (s : Bridge W)
      → IsLawful env
      → Inv resolving_set_status_on_elrond s
      → Returns Inv (resolve_set_status env s)
  unfolding resolve_set_status clear_stored_p2p_signatures_for_ethereum get_stored_batch
      get_batch_from_elrond print_info
  resolve_set_status-Inv s law h = grind (arith, law.get_pending_some, resolve_statuses-Inv)

  pub elrond_execute-Inv :
      (step : Step) (s : Bridge W) → IsLawful env → Inv step s → Returns Inv (execute env step s)
  unfolding execute
  elrond_execute-Inv getting_pending_batch_from_elrond s law h = get_pending-Inv s law h
  elrond_execute-Inv signing_proposed_transfer_on_ethereum s law h = sign_proposed_transfer-Inv s h
  elrond_execute-Inv waiting_for_quorum_on_transfer s law h = wait_for_quorum_on_transfer-Inv s h
  elrond_execute-Inv performing_transfer s law h = perform_transfer-Inv s h
  elrond_execute-Inv waiting_transfer_confirmation s law h = wait_transfer_confirmation-Inv s h
  elrond_execute-Inv resolving_set_status_on_elrond s law h = resolve_set_status-Inv s law h
  elrond_execute-Inv proposing_set_status_on_elrond s law h = propose_set_status-Inv s h
  elrond_execute-Inv signing_proposed_set_status_on_elrond s law h =
      sign_proposed_set_status-Inv s h
  elrond_execute-Inv waiting_for_quorum_on_set_status s law h =
      wait_for_quorum_on_set_status-Inv s h
  elrond_execute-Inv performing_set_status s law h = perform_set_status-Inv s h
