-- ===== src/Elrond/Tests.antt =====
-- The Elrond client on a small contract, and its theorems at concrete inputs.
use elrond_eth_bridge.Common.{
  ℕ, suc, ◌+◌, ◌≡◌, refl, true, false, some, List, [], ◌∷◌, ok, err, length,
  invalid_number_of_arguments,
}
use elrond_eth_bridge.Common.Bytes.{Bytes, bytes_equal}
use elrond_eth_bridge.Common.Int.{pos}
use elrond_eth_bridge.Batch.{DepositTransfer, TransferBatch}
use elrond_eth_bridge.Ethereum.Batches.{cached_token}
use elrond_eth_bridge.Elrond.{Proxy, Client}
use elrond_eth_bridge.Elrond.Requests.{
  deposit_args, create_tx_data, gas_limit, check_is_paused, sign_transaction,
  send_transaction_return_hash, propose_transfer, sign,
}
use elrond_eth_bridge.Elrond.Pending.{
  set_bytes, parse_uint64_from_byte_slice, empty_response, fields_of, deposit_of, create_deposits,
  create_pending_batch_from_response, get_pending,
}
use elrond_eth_bridge.Elrond.Pending.Read.{ComesFrom, get_pending-ComesFrom}

-- The batch 260 with two deposits of one token.
abbrev answer : List Bytes
answer =
    (1 ∷ 4 ∷ [])
    ∷ []
    ∷ (9 ∷ [])
    ∷ (1 ∷ [])
    ∷ (2 ∷ [])
    ∷ (7 ∷ [])
    ∷ (1 ∷ 0 ∷ [])
    ∷ []
    ∷ (10 ∷ [])
    ∷ (1 ∷ [])
    ∷ (3 ∷ [])
    ∷ (7 ∷ [])
    ∷ []
    ∷ []

abbrev proxy : Proxy ℕ
proxy = record {
  get_current_batch_as_data_bytes = λ w. (ok answer, w);
  is_paused = λ w. (ok false, w);
  is_whitelisted = λ w. (true, w);
  get_network_config = λ w. (ok tt, w);
  get_nonce = λ w. (ok 5, w);
  to_data_bytes = λ tx. ok (length tx.args ∷ []);
  sign_transaction = λ nonce limit bytes w. (ok bytes, w);
  send_transaction = λ tx w. (ok tx.tx_data, w);
  convert_token = λ token w. (ok (w ∷ token), suc w);
  get_current_nonce = λ w. (ok 77, w);
  set_string_metric = λ metric value w. w + 1;
  set_int_metric = λ metric value w. w + 1;
  error_text = λ e. "";
  fetched_in_a_row_text = λ nonce n. "";
  to_bech32_string = λ bytes. "";
  to_hex_string_with_prefix = λ bytes. "";
  text = λ bytes. "";
}

abbrev client : Client ℕ
client = record {
  gas_map_config = record {
    sign = 8;
    propose_transfer_base = 100;
    propose_transfer_for_each = 10;
    propose_status_base = 50;
    propose_status_for_each = 5;
    perform_action_base = 70;
    perform_action_for_each = 7;
  };
  allow_delta = 1;
  last_nonce = 0;
  retries_availability_check = 0;
  world = 40;
  transactions = [];
}

abbrev deposit : ℕ → Bytes → ℕ → DepositTransfer
deposit nonce to amount = record {
  nonce = nonce;
  to_bytes = to;
  displayable_to = "";
  from_bytes = 1 ∷ [];
  displayable_from = "";
  token_bytes = 7 ∷ [];
  converted_token_bytes = 40 ∷ 7 ∷ [];
  displayable_token = "";
  amount = some (pos amount);
}

abbrev batch : TransferBatch
batch = record {
  id = 260;
  deposits = deposit 9 (2 ∷ []) 256 ∷ deposit 10 (3 ∷ []) 0 ∷ [];
  statuses = 0 ∷ 0 ∷ [];
}

pending : (get_pending proxy client).0 ≡ ok batch
unfolding get_pending empty_response create_pending_batch_from_response fields_of create_deposits
    parse_uint64_from_byte_slice set_bytes deposit_of cached_token bytes_equal
pending = refl

one_short :
    (create_pending_batch_from_response proxy ((1 ∷ []) ∷ [] ∷ [] ∷ [] ∷ [] ∷ [] ∷ []) client).0
    ≡ err invalid_number_of_arguments
unfolding create_pending_batch_from_response
one_short = refl

proposed :
    (propose_transfer proxy (some batch) client).1.transactions
    ≡ record { nonce = 5; gas_limit = 120; tx_data = 11 ∷ []; signature = 11 ∷ [] } ∷ []
unfolding propose_transfer create_tx_data gas_limit deposit_args check_is_paused
    send_transaction_return_hash sign_transaction
proposed = refl

get_pending-ComesFrom_example : ComesFrom proxy (ok answer) (get_pending proxy client).0
get_pending-ComesFrom_example = get_pending-ComesFrom proxy client
