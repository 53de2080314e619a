-- ===== src/Ethereum/Example.antt =====
-- A small chain for clients/ethereum/client.go, and a client with three signatures of one hash. The
-- world counts the metrics that were set.
use elrond_eth_bridge.Common.{ℕ, ◌+◌, false, [], ◌∷◌, ok}
use elrond_eth_bridge.Common.Int.{pos}
use elrond_eth_bridge.Ethereum.{ContractDeposit, Chain, Client}

abbrev pub first_deposit : ContractDeposit
first_deposit = record {
  nonce = 4;
  token_address = 7 ∷ [];
  amount = pos 30;
  depositor = 1 ∷ [];
  recipient = 2 ∷ [];
}

abbrev pub chain : Chain ℕ
chain = record {
  get_batch = λ n w. (ok (record { nonce = n; deposits_count = 1 }), w);
  get_batch_deposits = λ n w. (ok (first_deposit ∷ []), w);
  was_batch_executed = λ n w. (ok false, w);
  chain_id = λ w. (ok 1, w);
  block_number = λ w. (ok 900, w);
  nonce_at = λ a n w. (ok 5, w);
  execute_transfer = λ tx w. (ok (1 ∷ []), w);
  quorum = λ w. (ok 2, w);
  get_statuses_after_execution = λ n w. (ok [], w);
  balance_at = λ a w. (ok (pos 1000), w);
  is_paused = λ w. (ok false, w);
  balance_of = λ token a w. (ok (pos 50), w);
  get_current_gas_price = λ w. (ok (pos 3), w);
  convert_token = λ token w. (ok (99 ∷ token), w);
  broadcast_signature = λ sig hash w. w;
  set_string_metric = λ m v w. w + 1;
  set_int_metric = λ m v w. w + 1;
  new_keyed_transactor = λ n. ok tt;
  sign = λ hash. ok hash;
  bytes_to_address = λ bytes. bytes;
  pack = λ lists n. ok [];
  keccak256 = λ bytes. bytes;
  to_bech32_string = λ bytes. "";
  to_hex_string = λ bytes. "";
  error_text = λ e. "";
  fetched_in_a_row_text = λ block n. "";
}

abbrev pub client : Client ℕ
client = record {
  relayer_address = 60 ∷ [];
  safe_contract_address = 61 ∷ [];
  transfer_gas_limit_base = 100;
  transfer_gas_limit_for_each = 50;
  allow_delta = 1;
  last_block_number = 0;
  retries_availability_check = 0;
  signature_holder = record {
    signed_messages = [];
    eth_messages =
        record { signature = 1 ∷ []; message_hash = 9 ∷ [] }
        ∷ record { signature = 2 ∷ []; message_hash = 9 ∷ [] }
        ∷ record { signature = 3 ∷ []; message_hash = 9 ∷ [] }
        ∷ [];
  };
  world = 0;
  calls = [];
}
