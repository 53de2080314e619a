-- ===== src/Bridge/Clients.antt =====
-- bridges/ethElrond/interface.go, core/types.go (StatusHandler) and the batch validator's
-- interface: what the bridge executor is given. `W` is the state of all that is behind these
-- interfaces: both chains, the peer-to-peer network, the clock, the validator's service, the
-- metrics and the log. A method takes that state and returns it with its result; hashes of sent
-- transactions, which the executor only logs, are left out.
use elrond_eth_bridge.Common.{ℕ, String, Bool, Option, none, ok, ◌≢◌, Result}
use elrond_eth_bridge.Common.Int.{ℤ}
use elrond_eth_bridge.Batch.{Bytes, TransferBatch}

pub data LogLevel : Type 0 where
  log_debug log_info log_warning log_error : LogLevel

pub record ElrondClient (W : Type 0) : Type 0 where
  pub get_pending : W → Result (Option TransferBatch) × W
  pub was_proposed_transfer : TransferBatch → W → Result Bool × W
  pub quorum_reached : ℕ → W → Result Bool × W
  pub was_executed : ℕ → W → Result Bool × W
  pub get_action_id_for_propose_transfer : TransferBatch → W → Result ℕ × W
  pub was_proposed_set_status : TransferBatch → W → Result Bool × W
  pub get_action_id_for_set_status_on_pending_transfer : TransferBatch → W → Result ℕ × W
  pub get_last_executed_eth_batch_id : W → Result ℕ × W
  pub get_last_executed_eth_tx_id : W → Result ℕ × W
  pub propose_set_status : TransferBatch → W → Result (Unit {0}) × W
  pub propose_transfer : TransferBatch → W → Result (Unit {0}) × W
  pub sign : ℕ → W → Result (Unit {0}) × W
  pub was_signed : ℕ → W → Result Bool × W
  pub perform_action : ℕ → TransferBatch → W → Result (Unit {0}) × W
  pub check_client_availability : W → Result (Unit {0}) × W

-- The result of `generate_message_hash` depends only on the batch; `after_generate_message_hash` is
-- what the call leaves behind, a panic included. `get_quorum_size` returns a `*big.Int`.
pub record EthereumClient (W : Type 0) : Type 0 where
  pub get_batch : ℕ → W → Result (Option TransferBatch) × W
  pub was_executed : ℕ → W → Result Bool × W
  pub generate_message_hash : TransferBatch → Result Bytes
  pub after_generate_message_hash : TransferBatch → W → W
  pub broadcast_signature_for_message_hash : Bytes → W → W
  pub execute_transfer : Bytes → TransferBatch → ℤ → W → Result (Unit {0}) × W
  pub get_transactions_statuses : ℕ → W → Result Bytes × W
  pub get_quorum_size : W → Result ℕ × W
  pub is_quorum_reached : Bytes → W → Result Bool × W
  pub check_client_availability : W → Result (Unit {0}) × W

-- `level_text` is the text of a level of the logger; `wait` is the select of
-- `waitWithContextSucceeded`: true when the timer fired first.
pub record Environment (W : Type 0) : Type 0 where
  pub elrond_client : ElrondClient W
  pub ethereum_client : EthereumClient W
  pub my_turn_as_leader : W → Bool × W
  pub validate_batch : TransferBatch → W → Result Bool × W
  pub clear_stored_signatures : W → W
  pub set_int_metric : String → ℤ → W → W
  pub set_string_metric : String → String → W → W
  pub log : LogLevel → String → W → W
  pub level_text : LogLevel → String
  pub wait : W → Bool × W

-- What the executor relies on: a fetched batch comes without an error only if it is not nil.
pub record IsLawful {W : Type 0} (env : Environment W) : Type 0 where
  pub get_pending_some : (w : W) → (env.elrond_client.get_pending w).0 ≢ ok none
  pub get_batch_some : (nonce : ℕ) (w : W) → (env.ethereum_client.get_batch nonce w).0 ≢ ok none
