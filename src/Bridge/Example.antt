-- ===== src/Bridge/Example.antt =====
-- A concrete environment for the bridge executor of bridges/ethElrond, on which tests run: one batch
-- is pending on either side, this relayer is the leader, and every request succeeds. The world is
-- the number of calls of the clients so far.
use elrond_eth_bridge.Common.{ℕ, ◌+◌, true, false, some, [], ◌∷◌, Result, ok}
use elrond_eth_bridge.Common.Int.{pos}
use elrond_eth_bridge.Batch.{DepositTransfer, TransferBatch}
use elrond_eth_bridge.Bridge.Clients.{ElrondClient, EthereumClient, Environment, IsLawful}
use elrond_eth_bridge.Bridge.Monad.{Executor, Bridge}

abbrev pub deposit : ℕ → DepositTransfer
deposit n = record {
  nonce = n;
  to_bytes = 1 ∷ [];
  displayable_to = "to";
  from_bytes = 2 ∷ [];
  displayable_from = "from";
  token_bytes = 3 ∷ [];
  converted_token_bytes = 4 ∷ [];
  displayable_token = "token";
  amount = some (pos 5);
}

abbrev pub batch : TransferBatch
batch = record { id = 8; deposits = deposit 21 ∷ deposit 22 ∷ []; statuses = 0 ∷ 0 ∷ [] }

abbrev answer : {A : Type 0} → A → ℕ → Result A × ℕ
answer a n = (ok a, n + 1)

abbrev pub elrond : ElrondClient ℕ
elrond = record {
  get_pending = answer (some batch);
  was_proposed_transfer = λ b. answer false;
  quorum_reached = λ id. answer true;
  was_executed = λ id. answer false;
  get_action_id_for_propose_transfer = λ b. answer 3;
  was_proposed_set_status = λ b. answer false;
  get_action_id_for_set_status_on_pending_transfer = λ b. answer 4;
  get_last_executed_eth_batch_id = answer 7;
  get_last_executed_eth_tx_id = answer 20;
  propose_set_status = λ b. answer tt;
  propose_transfer = λ b. answer tt;
  sign = λ id. answer tt;
  was_signed = λ id. answer false;
  perform_action = λ id b. answer tt;
  check_client_availability = answer tt;
}

abbrev pub ethereum : EthereumClient ℕ
ethereum = record {
  get_batch = λ nonce. answer (some batch);
  was_executed = λ id. answer true;
  generate_message_hash = λ b. ok (b.id ∷ []);
  after_generate_message_hash = λ b n. n;
  broadcast_signature_for_message_hash = λ h n. n + 1;
  execute_transfer = λ h b q. answer tt;
  get_transactions_statuses = λ id. answer (3 ∷ 3 ∷ 3 ∷ []);
  get_quorum_size = answer 2;
  is_quorum_reached = λ h. answer true;
  check_client_availability = answer tt;
}

abbrev pub environment : Environment ℕ
environment = record {
  elrond_client = elrond;
  ethereum_client = ethereum;
  my_turn_as_leader = λ n. (true, n + 1);
  validate_batch = λ b. answer true;
  clear_stored_signatures = λ n. n;
  set_int_metric = λ m v n. n;
  set_string_metric = λ m v n. n;
  log = λ l m n. n;
  level_text = λ l. "";
  wait = λ n. (true, n + 1);
}

pub environment-IsLawful : IsLawful environment
environment-IsLawful = record { get_pending_some = λ w h. cc; get_batch_some = λ nonce w h. cc }

-- An executor that waits for a quorum for the second time.
abbrev pub executor : Executor
executor = record {
  max_quorum_retries_on_ethereum = 3;
  max_quorum_retries_on_elrond = 3;
  max_retries_on_was_proposed = 3;
  batch = some batch;
  action_id = 3;
  msg_hash = 8 ∷ [];
  quorum_retries_on_ethereum = 1;
  quorum_retries_on_elrond = 1;
  retries_on_was_proposed = 1;
}

abbrev pub start : Bridge ℕ
start = record { executor = executor; world = 0; calls = [] }

-- Nobody has signed yet, and another relayer is the leader.
abbrev pub quiet : Environment ℕ
quiet = record environment {
  elrond_client = record elrond { quorum_reached = λ id. answer false };
  ethereum_client = record ethereum {
    is_quorum_reached = λ h. answer false;
    was_executed = λ id. answer false;
  };
  my_turn_as_leader = λ n. (false, n + 1);
}
