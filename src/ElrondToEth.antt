-- ===== src/ElrondToEth.antt =====
-- bridges/ethElrond/steps/elrondToEth: the steps of the Elrond to Ethereum half-bridge, one
-- function for each step's `Execute`. A step returns the identifier of the next step.
pub mod Invariant
pub mod Kept
pub mod Graph
pub mod Waiting
pub mod Machine
mod Tests
pub mod Statuses
use elrond_eth_bridge.Common.{
  ℕ, String, Bool, true, false, not, Option, none, some, List, [], ◌∷◌, Result, ok, err, ◌==◌,
  length, if◌then◌else◌,
}
use elrond_eth_bridge.Batch.{Bytes, TransferBatch}
use elrond_eth_bridge.Bridge.Clients.{log_debug, log_info, log_error, Environment}
use elrond_eth_bridge.Bridge.Monad.{M, pure, ◌>>=◌, ◌>>◌, modify, on_error}
use elrond_eth_bridge.Bridge.Executor.{
  invalid_action_id, print_info, print_and_return, my_turn_as_leader, get_batch_from_elrond,
  store_batch_from_elrond, get_stored_batch,
  get_and_store_action_id_for_propose_set_status_from_elrond,
  process_max_retries_on_was_transfer_proposed_on_elrond,
  reset_retries_on_was_transfer_proposed_on_elrond, was_set_status_proposed_on_elrond,
  propose_set_status_on_elrond, was_action_signed_on_elrond, sign_action_on_elrond,
  process_quorum_reached_on_elrond, was_transfer_performed_on_ethereum,
  wait_for_transfer_confirmation, wait_and_return_final_batch_statuses,
  was_action_performed_on_elrond, perform_action_on_elrond, resolve_new_deposits_statuses,
  process_max_quorum_retries_on_elrond, reset_retries_count_on_elrond, sign_transfer_on_ethereum,
  perform_transfer_on_ethereum, process_quorum_reached_on_ethereum,
  process_max_quorum_retries_on_ethereum, reset_retries_count_on_ethereum,
  clear_stored_p2p_signatures_for_ethereum, validate_batch, check_elrond_client_availability,
  check_ethereum_client_availability,
}

-- The step identifiers of constants.go.
pub data Step : Type 0 where
  getting_pending_batch_from_elrond : Step
  signing_proposed_transfer_on_ethereum : Step
  waiting_for_quorum_on_transfer : Step
  performing_transfer : Step
  waiting_transfer_confirmation : Step
  resolving_set_status_on_elrond : Step
  proposing_set_status_on_elrond : Step
  signing_proposed_set_status_on_elrond : Step
  waiting_for_quorum_on_set_status : Step
  performing_set_status : Step

pub Step-discrete : Discrete Step
Step-discrete = hlevel

-- The texts of the identifiers.
abbrev pub step_name : Step → String
step_name getting_pending_batch_from_elrond = "get pending batch from Elrond"
step_name signing_proposed_transfer_on_ethereum = "sign proposed transfer"
step_name waiting_for_quorum_on_transfer = "wait for quorum on transfer"
step_name performing_transfer = "perform transfer"
step_name waiting_transfer_confirmation = "wait transfer confirmating"
step_name resolving_set_status_on_elrond = "resolve set status"
step_name proposing_set_status_on_elrond = "propose set status"
step_name signing_proposed_set_status_on_elrond = "sign proposed set status"
step_name waiting_for_quorum_on_set_status = "wait for quorum on set status"
step_name performing_set_status = "perform set status"

abbrev first_step : Step
first_step = getting_pending_batch_from_elrond

module _ {W : Type 0} (env : Environment W) where
  -- What `getPendingStep.Execute` prints of a client that is not available.
  abbrev report_unavailable : Result (Unit {0}) → String → M W (Unit {0})
  report_unavailable (ok _) message = pure tt
  report_unavailable (err _) message = print_info env log_debug message

  -- The end of `getPendingStep.Execute`, from the question whether the transfer was performed.
  unfoldable pub check_performed : M W Step
  check_performed = do
    print_info env log_info "fetched new batch from Elrond"
    performed ← was_transfer_performed_on_ethereum env
    on_error performed
        (λ _.
          print_and_return env log_error "error determining if transfer was performed or not"
            first_step)
        λ was_performed. elim was_performed [
          | true ↦ print_and_return env log_info "transfer performed" resolving_set_status_on_elrond
          | false ↦ pure signing_proposed_transfer_on_ethereum
        ]

  -- The middle of `getPendingStep.Execute`, from the store of a batch that is not nil.
  unfoldable pub store_and_validate : TransferBatch → M W Step
  unfolding check_performed
  store_and_validate batch = do
    stored ← store_batch_from_elrond env (some batch)
    on_error stored (λ _. print_and_return env log_error "error storing Elrond batch" first_step)
        λ _. validate_batch env batch >>= λ r.
          on_error r
            (λ _. print_and_return env log_error "error validating Elrond batch" first_step)
            λ is_valid. elim is_valid [
              | false ↦ print_and_return env log_error "batch not valid" first_step
              | true ↦ check_performed
            ]

  -- `getPendingStep.Execute`, with `resetCountersOnElrond`
  unfoldable pub get_pending : M W Step
  get_pending = do
    elrond ← check_elrond_client_availability env
    report_unavailable elrond "elrond client unavailable"
    ethereum ← check_ethereum_client_availability env
    report_unavailable ethereum "ethereum client unavailable"
    reset_retries_count_on_ethereum env
    reset_retries_count_on_elrond env
    reset_retries_on_was_transfer_proposed_on_elrond env
    fetched ← get_batch_from_elrond env
    on_error fetched (λ _. print_and_return env log_debug "cannot fetch Elrond batch" first_step)
        λ batch. elim batch [
          | none ↦ print_and_return env log_debug "no new batch found on Elrond" first_step
          | some b ↦ store_and_validate b
        ]

  -- `signProposedTransferStep.Execute`
  unfoldable pub sign_proposed_transfer : M W Step
  sign_proposed_transfer = do
    stored ← get_stored_batch env
    elim stored [
      | none ↦ print_and_return env log_debug "nil batch stored" first_step
      | some _ ↦ sign_transfer_on_ethereum env >>= λ r.
          on_error r (λ _. print_and_return env log_error "error signing" first_step)
            λ _. pure waiting_for_quorum_on_transfer
    ]

  -- `waitForQuorumOnTransferStep.Execute`
  unfoldable pub wait_for_quorum_on_transfer : M W Step
  wait_for_quorum_on_transfer = do
    reached ← process_max_quorum_retries_on_ethereum env
    elim reached [
      | true ↦
          print_and_return env log_debug "max number of retries reached, resetting counter"
            first_step
      | false ↦ process_quorum_reached_on_ethereum env >>= λ r.
          on_error r
            (λ _.
              print_and_return env log_error "error while checking the quorum on Ethereum"
                first_step)
            λ is_quorum_reached.
              print_info env log_debug "quorum reached check"
              >> pure (
                  if not is_quorum_reached
                  then waiting_for_quorum_on_transfer
                  else performing_transfer)
    ]

  -- `performTransferStep.Execute`
  unfoldable pub perform_transfer : M W Step
  perform_transfer = do
    performed ← was_transfer_performed_on_ethereum env
    on_error performed
        (λ _.
          print_and_return env log_error "error determining if transfer was performed or not"
            first_step)
        λ was_performed. elim was_performed [
          | true ↦ print_and_return env log_info "transfer performed" resolving_set_status_on_elrond
          | false ↦ my_turn_as_leader env >>= λ leader. elim leader [
            | true ↦ perform_transfer_on_ethereum env >>= λ r.
                on_error r
                  (λ _.
                    print_and_return env log_error "error performing transfer on Ethereum"
                      first_step)
                  λ _. pure waiting_transfer_confirmation
            | false ↦
                print_and_return env log_debug "not my turn as leader in this round"
                  waiting_transfer_confirmation
          ]
        ]

  -- `waitTransferConfirmationStep.Execute`
  unfoldable pub wait_transfer_confirmation : M W Step
  wait_transfer_confirmation = wait_for_transfer_confirmation env >> pure performing_transfer

  -- `storedBatch.Statuses = statuses`: the stored batch is the executor's own, by its pointer.
  abbrev set_statuses : Bytes → M W (Unit {0})
  set_statuses statuses s = elim s.executor.batch [
    | none ↦ none
    | some b ↦ modify (λ e. record e { batch = some (record b { statuses = statuses }) }) s
  ]

  -- The end of `resolveSetStatusStep.Execute`, with the statuses from Ethereum and the number of
  -- statuses of the fetched batch.
  unfoldable pub store_statuses : Bytes → ℕ → M W Step
  store_statuses [] num_deposits = pure first_step
  store_statuses (s ∷ ss) num_deposits = do
    set_statuses (s ∷ ss)
    resolve_new_deposits_statuses env num_deposits
    pure proposing_set_status_on_elrond

  -- The middle of `resolveSetStatusStep.Execute`, with the batch that was fetched.
  unfoldable pub resolve_statuses : TransferBatch → M W Step
  resolve_statuses batch = do
    statuses ← wait_and_return_final_batch_statuses env
    store_statuses statuses (length batch.statuses)

  -- `resolveSetStatusStep.Execute`
  unfoldable pub resolve_set_status : M W Step
  resolve_set_status = do
    clear_stored_p2p_signatures_for_ethereum env
    stored ← get_stored_batch env
    elim stored [
      | none ↦ print_and_return env log_debug "nil batch stored" first_step
      | some _ ↦ get_batch_from_elrond env >>= λ r.
          on_error r (λ _. print_and_return env log_error "error while fetching batch" first_step)
            λ batch. elim batch [
              | none ↦ print_and_return env log_debug "nil batch fetched" first_step
              | some b ↦ resolve_statuses b
            ]
    ]

  -- `proposeSetStatusStep.Execute`
  unfoldable pub propose_set_status : M W Step
  propose_set_status = do
    stored ← get_stored_batch env
    elim stored [
      | none ↦ print_and_return env log_debug "nil batch stored" first_step
      | some _ ↦ process_max_retries_on_was_transfer_proposed_on_elrond env >>= λ reached.
          elim reached [
            | true ↦
                print_and_return env log_debug "max number of retries reached, resetting counter"
                  first_step
            | false ↦ was_set_status_proposed_on_elrond env >>= λ r.
                on_error r
                  (λ _.
                    print_and_return env log_error
                      "error determining if the set status action was proposed or not on Elrond"
                      first_step)
                  λ was_set_status_proposed. elim was_set_status_proposed [
                    | true ↦ pure signing_proposed_set_status_on_elrond
                    | false ↦ my_turn_as_leader env >>= λ leader. elim leader [
                      | false ↦
                          print_and_return env log_debug "not my turn as leader in this round"
                            proposing_set_status_on_elrond
                      | true ↦ propose_set_status_on_elrond env >>= λ r.
                          on_error r
                            (λ _.
                              print_and_return env log_error "error proposing transfer on Elrond"
                                first_step)
                            λ _. pure signing_proposed_set_status_on_elrond
                    ]
                  ]
          ]
    ]

  -- The end of `signProposedSetStatusStep.Execute`, from the question whether the action is signed.
  unfoldable pub sign_stored_action : M W Step
  sign_stored_action = do
    signed ← was_action_signed_on_elrond env
    on_error signed
        (λ _.
          print_and_return env log_error
            "error determining if the proposed transfer was signed or not" first_step)
        λ was_signed. elim was_signed [
          | true ↦ pure waiting_for_quorum_on_set_status
          | false ↦ sign_action_on_elrond env >>= λ r.
              on_error r
                (λ _.
                  print_and_return env log_error "error signing the proposed transfer" first_step)
                λ _. pure waiting_for_quorum_on_set_status
        ]

  -- `signProposedSetStatusStep.Execute`
  unfoldable pub sign_proposed_set_status : M W Step
  unfolding sign_stored_action
  sign_proposed_set_status = do
    stored ← get_stored_batch env
    elim stored [
      | none ↦ print_and_return env log_debug "nil stored batch" first_step
      | some _ ↦ get_and_store_action_id_for_propose_set_status_from_elrond env >>= λ r.
          on_error r (λ _. print_and_return env log_error "error fetching action ID" first_step)
            λ action_id.
              if action_id == invalid_action_id
              then print_and_return env log_error "contract error, got invalid action ID" first_step
              else (print_info env log_info "fetched action ID" >> sign_stored_action)
    ]

  -- `waitForQuorumOnSetStatusStep.Execute`
  unfoldable pub wait_for_quorum_on_set_status : M W Step
  wait_for_quorum_on_set_status = do
    reached ← process_max_quorum_retries_on_elrond env
    elim reached [
      | true ↦
          print_and_return env log_debug "max number of retries reached, resetting counter"
            first_step
      | false ↦ process_quorum_reached_on_elrond env >>= λ r.
          on_error r
            (λ _. print_and_return env log_error "error while checking the quorum" first_step)
            λ is_quorum_reached.
              print_info env log_debug "quorum reached check"
              >> pure (
                  if not is_quorum_reached
                  then waiting_for_quorum_on_set_status
                  else performing_set_status)
    ]

  -- `performSetStatusStep.Execute`
  unfoldable pub perform_set_status : M W Step
  perform_set_status = do
    performed ← was_action_performed_on_elrond env
    on_error performed
        (λ _.
          print_and_return env log_error "error determining if the set status was proposed or not"
            first_step)
        λ was_performed. elim was_performed [
          | true ↦ print_and_return env log_info "action ID performed" first_step
          | false ↦ my_turn_as_leader env >>= λ leader. elim leader [
            | false ↦
                print_and_return env log_debug "not my turn as leader in this round"
                  performing_set_status
            | true ↦ perform_action_on_elrond env >>= λ r.
                on_error r
                  (λ _. print_and_return env log_error "error performing action ID" first_step)
                  λ _. pure performing_set_status
          ]
        ]

  -- `Execute` of the step with the given identifier.
  unfoldable pub execute : Step → M W Step
  execute getting_pending_batch_from_elrond = get_pending
  execute signing_proposed_transfer_on_ethereum = sign_proposed_transfer
  execute waiting_for_quorum_on_transfer = wait_for_quorum_on_transfer
  execute performing_transfer = perform_transfer
  execute waiting_transfer_confirmation = wait_transfer_confirmation
  execute resolving_set_status_on_elrond = resolve_set_status
  execute proposing_set_status_on_elrond = propose_set_status
  execute signing_proposed_set_status_on_elrond = sign_proposed_set_status
  execute waiting_for_quorum_on_set_status = wait_for_quorum_on_set_status
  execute performing_set_status = perform_set_status
