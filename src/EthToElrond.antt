-- ===== src/EthToElrond.antt =====
-- bridges/ethElrond/steps/ethToElrond: the steps of the Ethereum to Elrond half-bridge, one
-- function for each step's `Execute`. A step returns the identifier of the next step.
pub mod Invariant
pub mod Kept
pub mod Graph
pub mod Waiting
pub mod Machine
mod Tests
use elrond_eth_bridge.Common.{
  ℕ, ◌+◌, String, Bool, true, false, not, Option, none, some, Result, ok, err, ◌==◌, if◌then◌else◌,
  u64,
}
use elrond_eth_bridge.Batch.{TransferBatch}
use elrond_eth_bridge.Bridge.Clients.{log_debug, log_info, log_error, Environment}
use elrond_eth_bridge.Bridge.Monad.{M, pure, ◌>>=◌, ◌>>◌, on_error}
use elrond_eth_bridge.Bridge.Executor.{
  invalid_action_id, print_info, print_and_return, my_turn_as_leader, get_stored_batch,
  get_stored_action_id, get_last_executed_eth_batch_id_from_elrond,
  verify_last_deposit_nonce_executed_on_ethereum_batch,
  get_and_store_action_id_for_propose_transfer_on_elrond, was_transfer_proposed_on_elrond,
  propose_transfer_on_elrond, was_action_signed_on_elrond, sign_action_on_elrond,
  process_quorum_reached_on_elrond, was_action_performed_on_elrond, perform_action_on_elrond,
  process_max_quorum_retries_on_elrond, reset_retries_count_on_elrond,
  get_and_store_batch_from_ethereum, validate_batch, check_elrond_client_availability,
  check_ethereum_client_availability,
}

-- The step identifiers of constants.go.
pub data Step : Type 0 where
  getting_pending_batch_from_ethereum : Step
  proposing_transfer_on_elrond : Step
  signing_proposed_transfer_on_elrond : Step
  waiting_for_quorum : Step
  performing_action_id : Step

pub Step-discrete : Discrete Step
Step-discrete = hlevel

-- The texts of the identifiers.
abbrev pub step_name : Step → String
step_name getting_pending_batch_from_ethereum = "get pending batch from Ethereum"
step_name proposing_transfer_on_elrond = "propose transfer"
step_name signing_proposed_transfer_on_elrond = "sign proposed transfer"
step_name waiting_for_quorum = "wait for quorum"
step_name performing_action_id = "perform action"

abbrev first_step : Step
first_step = getting_pending_batch_from_ethereum

module _ {W : Type 0} (env : Environment W) where
  -- What `getPendingStep.Execute` prints of a client that is not available.
  abbrev report_unavailable : Result (Unit {0}) → String → M W (Unit {0})
  report_unavailable (ok _) message = pure tt
  report_unavailable (err _) message = print_info env log_debug message

  -- The end of `getPendingStep.Execute`, from the check of the stored batch.
  unfoldable pub verify_pending : M W Step
  verify_pending = do
    stored ← get_stored_batch env
    elim stored [
      | none ↦ print_and_return env log_debug "no new batch found on eth" first_step
      | some batch ↦ validate_batch env batch >>= λ r.
          on_error r
            (λ _. print_and_return env log_error "error validating Ethereum batch" first_step)
            λ is_valid. elim is_valid [
              | false ↦ print_and_return env log_error "batch not valid" first_step
              | true ↦ do
                print_info env log_info "fetched new batch from Ethereum"
                r ← verify_last_deposit_nonce_executed_on_ethereum_batch env
                on_error r
                    (λ _.
                      print_and_return env log_error
                        "verification failed on the new batch from Ethereum" first_step)
                    λ _. pure proposing_transfer_on_elrond
            ]
    ]

  -- `getPendingStep.Execute`
  unfoldable pub get_pending : M W Step
  unfolding verify_pending
  get_pending = do
    elrond ← check_elrond_client_availability env
    report_unavailable elrond "elrond client unavailable"
    ethereum ← check_ethereum_client_availability env
    report_unavailable ethereum "ethereum client unavailable"
    reset_retries_count_on_elrond env
    last ← get_last_executed_eth_batch_id_from_elrond env
    on_error last
        (λ _. print_and_return env log_error "error fetching last executed eth batch ID" first_step)
        λ last_eth_batch_executed. do
          fetched ← get_and_store_batch_from_ethereum env (u64 (last_eth_batch_executed + 1))
          on_error fetched (λ _. print_and_return env log_debug "cannot fetch eth batch" first_step)
              λ _. verify_pending

  -- `proposeTransferStep.Execute`
  unfoldable pub propose_transfer : M W Step
  propose_transfer = do
    stored ← get_stored_batch env
    elim stored [
      | none ↦ print_and_return env log_debug "no batch found" first_step
      | some _ ↦ was_transfer_proposed_on_elrond env >>= λ r.
          on_error r
            (λ _.
              print_and_return env log_error
                "error determining if the batch was proposed or not on Elrond" first_step)
            λ was_transfer_proposed. elim was_transfer_proposed [
              | true ↦ pure signing_proposed_transfer_on_elrond
              | false ↦ my_turn_as_leader env >>= λ leader. elim leader [
                | false ↦
                    print_and_return env log_debug "not my turn as leader in this round"
                      proposing_transfer_on_elrond
                | true ↦ propose_transfer_on_elrond env >>= λ r.
                    on_error r
                      (λ _.
                        print_and_return env log_error "error proposing transfer on Elrond"
                          first_step)
                      λ _. pure signing_proposed_transfer_on_elrond
              ]
            ]
    ]

  -- The end of `signProposedTransferStep.Execute`, from the question whether the action is signed.
  unfoldable pub sign_stored_action : M W Step
  sign_stored_action = do
    signed ← was_action_signed_on_elrond env
    on_error signed
        (λ _.
          print_and_return env log_error
            "error determining if the proposed transfer was signed or not" first_step)
        λ was_signed. elim was_signed [
          | true ↦ pure waiting_for_quorum
          | false ↦ sign_action_on_elrond env >>= λ r.
              on_error r
                (λ _.
                  print_and_return env log_error "error signing the proposed transfer" first_step)
                λ _. pure waiting_for_quorum
        ]

  -- `signProposedTransferStep.Execute`
  unfoldable pub sign_proposed_transfer : M W Step
  unfolding sign_stored_action
  sign_proposed_transfer = do
    stored ← get_stored_batch env
    elim stored [
      | none ↦ print_and_return env log_debug "no batch found" first_step
      | some _ ↦ get_and_store_action_id_for_propose_transfer_on_elrond env >>= λ r.
          on_error r (λ _. print_and_return env log_error "error fetching action ID" first_step)
            λ action_id.
              if action_id == invalid_action_id
              then print_and_return env log_error "contract error, got invalid action ID" first_step
              else (print_info env log_info "fetched action ID" >> sign_stored_action)
    ]

  -- `waitForQuorumStep.Execute`
  unfoldable pub wait_for_quorum : M W Step
  wait_for_quorum = do
    reached ← process_max_quorum_retries_on_elrond env
    elim reached [
      | true ↦
          print_and_return env log_debug "max number of retries reached, resetting counter"
            first_step
      | false ↦ process_quorum_reached_on_elrond env >>= λ r.
          on_error r
            (λ _. print_and_return env log_error "error while checking the quorum" first_step)
            λ is_quorum_reached.
              print_info env log_debug "quorum reached check"
              >> pure (if not is_quorum_reached then waiting_for_quorum else performing_action_id)
    ]

  -- `performActionIDStep.Execute`
  unfoldable pub perform_action_id : M W Step
  perform_action_id = do
    performed ← was_action_performed_on_elrond env
    on_error performed
        (λ _.
          print_and_return env log_error "error determining if the action ID was proposed or not"
            first_step)
        λ was_performed. elim was_performed [
          | true ↦ print_and_return env log_info "action ID performed" first_step
          | false ↦ my_turn_as_leader env >>= λ leader. elim leader [
            | false ↦
                print_and_return env log_debug "not my turn as leader in this round"
                  performing_action_id
            | true ↦ perform_action_on_elrond env >>= λ r.
                on_error r
                  (λ _. print_and_return env log_error "error performing action ID" first_step)
                  λ _. pure performing_action_id
          ]
        ]

  -- `Execute` of the step with the given identifier.
  unfoldable pub execute : Step → M W Step
  execute getting_pending_batch_from_ethereum = get_pending
  execute proposing_transfer_on_elrond = propose_transfer
  execute signing_proposed_transfer_on_elrond = sign_proposed_transfer
  execute waiting_for_quorum = wait_for_quorum
  execute performing_action_id = perform_action_id
