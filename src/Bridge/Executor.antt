-- ===== src/Bridge/Executor.antt =====
-- The methods of bridges/ethElrond/bridgeExecutor.go, one function each, over the state and the
-- calls of `Monad`.
pub mod Waits
pub mod Asked
pub mod Nonces
pub mod Kept
pub mod Create
mod Tests
use elrond_eth_bridge.Common.{
  ℕ, zero, suc, ◌+◌, ◌-◌, ◌%◌, ◌^◌, String, Bool, true, false, not, ◌||◌, Option, none, some, List,
  [], ◌∷◌, ◌++◌, length, ltb, ◌==◌, if◌then◌else◌, Result, ok, err, Error, nil_batch,
  invalid_deposit_nonce, batch_not_found, u64,
}
use elrond_eth_bridge.Common.Int.{int64}
use elrond_eth_bridge.Common.Text.{with_colon}
use elrond_eth_bridge.Batch.{Bytes, DepositTransfer, TransferBatch, resolve_new_deposits}
use elrond_eth_bridge.Bridge.Clients.{
  LogLevel, log_debug, log_info, log_warning, log_error, ElrondClient, EthereumClient, Environment,
}
use elrond_eth_bridge.Bridge.Monad.{
  Executor, Call, my_turn, was_transfer_proposed, transfer_proposed, was_set_status_proposed,
  set_status_proposed, was_signed, signed, quorum_on_elrond, was_action_executed, action_performed,
  was_transfer_executed, signature_broadcast, quorum_on_ethereum, transfer_executed,
  signatures_cleared, batch_validated, last_batch_id, last_tx_id, Bridge, M, pure, panic, ◌>>=◌,
  ◌>>◌, gets, modify, ask, tell, record_call, or_return, ask_recorded, request, with_batch,
}

-- `splits`
abbrev pub splits : ℕ
splits = 10

-- `InvalidActionID`
abbrev pub invalid_action_id : ℕ
invalid_action_id = 0

-- The loop of `verifyDepositNonces`; `startNonce++` wraps.
unfoldable pub verify_deposit_nonces_from : ℕ → List DepositTransfer → Result (Unit {0})
verify_deposit_nonces_from start_nonce [] = ok tt
verify_deposit_nonces_from start_nonce (dt ∷ dts) =
    let rest = verify_deposit_nonces_from (u64 (start_nonce + 1)) dts in
    if not (dt.nonce == start_nonce) then err invalid_deposit_nonce else rest

-- `verifyDepositNonces`
unfoldable pub verify_deposit_nonces : ℕ → List DepositTransfer → Result (Unit {0})
unfolding verify_deposit_nonces_from
verify_deposit_nonces last_nonce deposits =
    verify_deposit_nonces_from (u64 (last_nonce + 1)) deposits

-- One of the three counters of retries: whether the maximum is reached, and the new count.
abbrev process_max_retries : ℕ → ℕ → Bool × ℕ
process_max_retries retries max_retries =
    if ltb retries max_retries then (false, u64 (retries + 1)) else (true, retries)

module _ {W : Type 0} (env : Environment W) where
  open env use {elrond_client, ethereum_client}

  -- `setExecutionMessageInStatusHandler`. The extras, which are formatted into the text, are left
  -- out.
  unfoldable pub set_execution_message_in_status_handler : LogLevel → String → M W (Unit {0})
  set_execution_message_in_status_handler level message =
      tell
        (env.set_string_metric "last encountered error" (with_colon (env.level_text level) message))

  -- `PrintInfo`, whose extras are left out as well.
  unfoldable pub print_info : LogLevel → String → M W (Unit {0})
  unfolding set_execution_message_in_status_handler
  print_info level message = do
    tell (env.log level message)
    elim level [
      | log_debug ↦ pure tt
      | log_info ↦ pure tt
      | log_warning ↦ set_execution_message_in_status_handler log_warning message
      | log_error ↦ set_execution_message_in_status_handler log_error message
    ]

  -- A step's `PrintInfo` before it returns.
  abbrev pub print_and_return : {A : Type 0} → LogLevel → String → A → M W A
  print_and_return level message a = print_info level message >> pure a

  -- `MyTurnAsLeader`
  unfoldable pub my_turn_as_leader : M W Bool
  my_turn_as_leader = do
    leader ← ask env.my_turn_as_leader
    record_call (my_turn leader)
    pure leader

  -- `GetBatchFromElrond`; `int(batch.ID) - 1` panics on a nil batch.
  unfoldable pub get_batch_from_elrond : M W (Result (Option TransferBatch))
  get_batch_from_elrond = do
    r ← ask elrond_client.get_pending
    or_return r (λ batch. elim batch [
      | none ↦ panic
      | some b ↦
          tell (env.set_int_metric "num batches" (int64 (b.id + 2 ^ 64 - 1))) >> pure (ok (some b))
    ])

  -- `StoreBatchFromElrond`
  unfoldable pub store_batch_from_elrond : Option TransferBatch → M W (Result (Unit {0}))
  store_batch_from_elrond none = pure (err nil_batch)
  store_batch_from_elrond (some b) = do modify (λ e. record e { batch = some b }); pure (ok tt)

  -- `GetStoredBatch`
  unfoldable pub get_stored_batch : M W (Option TransferBatch)
  get_stored_batch = gets (λ e. e.batch)

  -- `GetLastExecutedEthBatchIDFromElrond`
  unfoldable pub get_last_executed_eth_batch_id_from_elrond : M W (Result ℕ)
  get_last_executed_eth_batch_id_from_elrond = do
    r ← ask elrond_client.get_last_executed_eth_batch_id
    or_return r (λ id. do
      record_call (last_batch_id id)
      tell (env.set_int_metric "num batches" (int64 id))
      pure (ok id))

  -- `VerifyLastDepositNonceExecutedOnEthereumBatch`
  unfoldable pub verify_last_deposit_nonce_executed_on_ethereum_batch : M W (Result (Unit {0}))
  unfolding verify_deposit_nonces
  verify_last_deposit_nonce_executed_on_ethereum_batch = with_batch (err nil_batch) λ batch. do
    r ← ask_recorded elrond_client.get_last_executed_eth_tx_id last_tx_id
    or_return r (λ last_nonce. pure (verify_deposit_nonces last_nonce batch.deposits))

  -- `GetAndStoreActionIDForProposeTransferOnElrond`
  unfoldable pub get_and_store_action_id_for_propose_transfer_on_elrond : M W (Result ℕ)
  get_and_store_action_id_for_propose_transfer_on_elrond = with_batch (err nil_batch) λ batch. do
    r ← ask (elrond_client.get_action_id_for_propose_transfer batch)
    or_return r (λ id. modify (λ e. record e { action_id = id }) >> pure (ok id))

  -- `GetAndStoreActionIDForProposeSetStatusFromElrond`
  unfoldable pub get_and_store_action_id_for_propose_set_status_from_elrond : M W (Result ℕ)
  get_and_store_action_id_for_propose_set_status_from_elrond = with_batch (err nil_batch) λ batch.
      do
        r ← ask (elrond_client.get_action_id_for_set_status_on_pending_transfer batch)
        or_return r (λ id. modify (λ e. record e { action_id = id }) >> pure (ok id))

  -- `GetStoredActionID`
  unfoldable pub get_stored_action_id : M W ℕ
  get_stored_action_id = gets (λ e. e.action_id)

  -- `WasTransferProposedOnElrond`
  unfoldable pub was_transfer_proposed_on_elrond : M W (Result Bool)
  was_transfer_proposed_on_elrond = with_batch (err nil_batch) λ batch.
      ask_recorded (elrond_client.was_proposed_transfer batch) (was_transfer_proposed batch)

  -- `ProposeTransferOnElrond`
  unfoldable pub propose_transfer_on_elrond : M W (Result (Unit {0}))
  propose_transfer_on_elrond =
      with_batch (err nil_batch)
        λ batch. request (transfer_proposed batch) (elrond_client.propose_transfer batch)

  -- `ProcessMaxRetriesOnWasTransferProposedOnElrond`
  unfoldable pub process_max_retries_on_was_transfer_proposed_on_elrond : M W Bool
  process_max_retries_on_was_transfer_proposed_on_elrond = do
    (reached, n) ←
        gets (λ e. process_max_retries e.retries_on_was_proposed e.max_retries_on_was_proposed)
    modify (λ e. record e { retries_on_was_proposed = n })
    pure reached

  -- `ResetRetriesOnWasTransferProposedOnElrond`
  unfoldable pub reset_retries_on_was_transfer_proposed_on_elrond : M W (Unit {0})
  reset_retries_on_was_transfer_proposed_on_elrond =
      modify (λ e. record e { retries_on_was_proposed = 0 })

  -- `WasSetStatusProposedOnElrond`
  unfoldable pub was_set_status_proposed_on_elrond : M W (Result Bool)
  was_set_status_proposed_on_elrond = with_batch (err nil_batch) λ batch.
      ask_recorded (elrond_client.was_proposed_set_status batch) (was_set_status_proposed batch)

  -- `ProposeSetStatusOnElrond`
  unfoldable pub propose_set_status_on_elrond : M W (Result (Unit {0}))
  propose_set_status_on_elrond =
      with_batch (err nil_batch)
        λ batch. request (set_status_proposed batch) (elrond_client.propose_set_status batch)

  -- `WasActionSignedOnElrond`
  unfoldable pub was_action_signed_on_elrond : M W (Result Bool)
  was_action_signed_on_elrond = do
    id ← gets (λ e. e.action_id)
    ask_recorded (elrond_client.was_signed id) (was_signed id)

  -- `SignActionOnElrond`
  unfoldable pub sign_action_on_elrond : M W (Result (Unit {0}))
  sign_action_on_elrond = do
    id ← gets (λ e. e.action_id)
    request (signed id) (elrond_client.sign id)

  -- `ProcessQuorumReachedOnElrond`
  unfoldable pub process_quorum_reached_on_elrond : M W (Result Bool)
  process_quorum_reached_on_elrond = do
    id ← gets (λ e. e.action_id)
    ask_recorded (elrond_client.quorum_reached id) (quorum_on_elrond id)

  -- `WasTransferPerformedOnEthereum`
  unfoldable pub was_transfer_performed_on_ethereum : M W (Result Bool)
  was_transfer_performed_on_ethereum =
      with_batch (err nil_batch) λ batch.
        ask_recorded (ethereum_client.was_executed batch.id) (was_transfer_executed batch.id)

  -- One round of `WaitForTransferConfirmation`: the new `wasPerformed`. Where the question fails,
  -- the client's answer beside the error is taken to be false, as it is in Go's zero value.
  wait_round : M W Bool
  unfolding was_transfer_performed_on_ethereum
  wait_round = do
    succeeded ← ask env.wait
    elim succeeded [
      | true ↦ was_transfer_performed_on_ethereum >>= λ r.
          pure (elim r [ ok answer ↦ answer | err _ ↦ false ])
      | false ↦ pure false
    ]

  -- The loop of `WaitForTransferConfirmation`, by the rounds left.
  wait_for_transfer_confirmation_from : ℕ → Bool → M W (Unit {0})
  unfolding wait_round
  wait_for_transfer_confirmation_from zero was_performed = pure tt
  wait_for_transfer_confirmation_from (suc rounds) true = pure tt
  wait_for_transfer_confirmation_from (suc rounds) false =
      wait_round >>= λ was_performed. wait_for_transfer_confirmation_from rounds was_performed

  -- `WaitForTransferConfirmation`
  unfoldable pub wait_for_transfer_confirmation : M W (Unit {0})
  unfolding wait_for_transfer_confirmation_from
  wait_for_transfer_confirmation = wait_for_transfer_confirmation_from splits false

  -- `GetBatchStatusesFromEthereum`
  unfoldable pub get_batch_statuses_from_ethereum : M W (Result Bytes)
  get_batch_statuses_from_ethereum =
      with_batch (err nil_batch) λ batch. ask (ethereum_client.get_transactions_statuses batch.id)

  -- One round of `WaitAndReturnFinalBatchStatuses`: what it returns, or `none` to go on.
  status_round : M W (Option Bytes)
  unfolding get_batch_statuses_from_ethereum
  status_round = do
    succeeded ← ask env.wait
    elim succeeded [
      | false ↦ pure (some [])
      | true ↦ get_batch_statuses_from_ethereum >>= λ r. elim r [
        | err _ ↦ pure none
        | ok statuses ↦ pure (elim statuses [ [] ↦ none | s ∷ ss ↦ some (s ∷ ss) ])
      ]
    ]

  -- The loop of `WaitAndReturnFinalBatchStatuses`, by the rounds left.
  wait_and_return_final_batch_statuses_from : ℕ → M W Bytes
  unfolding status_round
  wait_and_return_final_batch_statuses_from zero = pure []
  wait_and_return_final_batch_statuses_from (suc rounds) = status_round >>= λ r. elim r [
    | some statuses ↦ pure statuses
    | none ↦ wait_and_return_final_batch_statuses_from rounds
  ]

  -- `WaitAndReturnFinalBatchStatuses`; nil is the empty list.
  unfoldable pub wait_and_return_final_batch_statuses : M W Bytes
  unfolding wait_and_return_final_batch_statuses_from
  wait_and_return_final_batch_statuses = wait_and_return_final_batch_statuses_from splits

  -- `WasActionPerformedOnElrond`
  unfoldable pub was_action_performed_on_elrond : M W (Result Bool)
  was_action_performed_on_elrond = do
    id ← gets (λ e. e.action_id)
    ask_recorded (elrond_client.was_executed id) (was_action_executed id)

  -- `PerformActionOnElrond`
  unfoldable pub perform_action_on_elrond : M W (Result (Unit {0}))
  perform_action_on_elrond = with_batch (err nil_batch) λ batch. do
    id ← gets (λ e. e.action_id)
    request (action_performed id batch) (elrond_client.perform_action id batch)

  -- `ResolveNewDepositsStatuses`, which panics where no batch is stored.
  unfoldable pub resolve_new_deposits_statuses : ℕ → M W (Unit {0})
  resolve_new_deposits_statuses num_deposits s = elim s.executor.batch [
    | none ↦ none
    | some b ↦ modify (λ e. record e { batch = some (resolve_new_deposits num_deposits b) }) s
  ]

  -- `ProcessMaxQuorumRetriesOnElrond`
  unfoldable pub process_max_quorum_retries_on_elrond : M W Bool
  process_max_quorum_retries_on_elrond = do
    (reached, n) ←
        gets (λ e. process_max_retries e.quorum_retries_on_elrond e.max_quorum_retries_on_elrond)
    modify (λ e. record e { quorum_retries_on_elrond = n })
    pure reached

  -- `ResetRetriesCountOnElrond`
  unfoldable pub reset_retries_count_on_elrond : M W (Unit {0})
  reset_retries_count_on_elrond = modify (λ e. record e { quorum_retries_on_elrond = 0 })

  -- `GetAndStoreBatchFromEthereum`, which panics on a nil batch.
  unfoldable pub get_and_store_batch_from_ethereum : ℕ → M W (Result (Unit {0}))
  get_and_store_batch_from_ethereum nonce = do
    r ← ask (ethereum_client.get_batch nonce)
    or_return r (λ batch. elim batch [
      | none ↦ panic
      | some b ↦
          if not (b.id == nonce) || length b.deposits == 0
          then pure (err batch_not_found)
          else (modify (λ e. record e { batch = some b }) >> pure (ok tt))
    ])

  -- `SignTransferOnEthereum`
  unfoldable pub sign_transfer_on_ethereum : M W (Result (Unit {0}))
  sign_transfer_on_ethereum = with_batch (err nil_batch) λ batch.
      tell (ethereum_client.after_generate_message_hash batch)
      >> or_return (ethereum_client.generate_message_hash batch) λ hash. do
        modify (λ e. record e { msg_hash = hash })
        record_call (signature_broadcast hash)
        tell (ethereum_client.broadcast_signature_for_message_hash hash)
        pure (ok tt)

  -- `PerformTransferOnEthereum`; `int(quorumSize.Int64())` is the low 64 bits.
  unfoldable pub perform_transfer_on_ethereum : M W (Result (Unit {0}))
  perform_transfer_on_ethereum = with_batch (err nil_batch) λ batch. do
    r ← ask ethereum_client.get_quorum_size
    or_return r λ quorum_size. do
      hash ← gets (λ e. e.msg_hash)
      request (transfer_executed hash batch (int64 quorum_size))
          (ethereum_client.execute_transfer hash batch (int64 quorum_size))

  -- `ProcessQuorumReachedOnEthereum`
  unfoldable pub process_quorum_reached_on_ethereum : M W (Result Bool)
  process_quorum_reached_on_ethereum = do
    hash ← gets (λ e. e.msg_hash)
    ask_recorded (ethereum_client.is_quorum_reached hash) (quorum_on_ethereum hash)

  -- `ProcessMaxQuorumRetriesOnEthereum`
  unfoldable pub process_max_quorum_retries_on_ethereum : M W Bool
  process_max_quorum_retries_on_ethereum = do
    (reached, n) ←
        gets
          (λ e. process_max_retries e.quorum_retries_on_ethereum e.max_quorum_retries_on_ethereum)
    modify (λ e. record e { quorum_retries_on_ethereum = n })
    pure reached

  -- `ResetRetriesCountOnEthereum`
  unfoldable pub reset_retries_count_on_ethereum : M W (Unit {0})
  reset_retries_count_on_ethereum = modify (λ e. record e { quorum_retries_on_ethereum = 0 })

  -- `ClearStoredP2PSignaturesForEthereum`
  unfoldable pub clear_stored_p2p_signatures_for_ethereum : M W (Unit {0})
  clear_stored_p2p_signatures_for_ethereum =
      record_call signatures_cleared >> tell env.clear_stored_signatures

  -- `ValidateBatch`
  unfoldable pub validate_batch : TransferBatch → M W (Result Bool)
  validate_batch batch = ask_recorded (env.validate_batch batch) (batch_validated batch)

  -- `CheckElrondClientAvailability`
  unfoldable pub check_elrond_client_availability : M W (Result (Unit {0}))
  check_elrond_client_availability = ask elrond_client.check_client_availability

  -- `CheckEthereumClientAvailability`
  unfoldable pub check_ethereum_client_availability : M W (Result (Unit {0}))
  check_ethereum_client_availability = ask ethereum_client.check_client_availability
