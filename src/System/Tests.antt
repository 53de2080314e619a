-- ===== src/System/Tests.antt =====
-- A relayer over a small world, in which the pending batch goes to Ethereum in four polls.
use elrond_eth_bridge.Common.{
  ℕ, ◌≡◌, refl, false, true, some, List, [], ◌∷◌, ok, length, arith, none,
}
use elrond_eth_bridge.Common.Bytes.{Bytes}
use elrond_eth_bridge.Common.Int.{pos}
use elrond_eth_bridge.Batch.Validator.{asking}
use elrond_eth_bridge.Ethereum.Example.{chain, client}
use elrond_eth_bridge.Elrond.DataGetter.{Node}
use elrond_eth_bridge.EthToElrond
use elrond_eth_bridge.EthToElrond.Machine
use elrond_eth_bridge.ElrondToEth
use elrond_eth_bridge.Bridge.Executor.Create.{
  ArgsBridgeExecutor, check_args, create_bridge_executor, new_bridge_executor,
}
use elrond_eth_bridge.StateMachine.Run.{Holds}
use elrond_eth_bridge.System.{
  Half, ethereum_to_elrond, elrond_to_ethereum, HalfServices, Services, System, environment,
}
use elrond_eth_bridge.System.Relayer.{Relayer, new_relayer, run_relayer}
use elrond_eth_bridge.System.Relayer.Runs.{WentWell}
use elrond_eth_bridge.System.Started.{IsConfigured, started_run_safe}
use elrond_eth_bridge.System.Create.{
  ArgsComponents, new_system, new_bridges, new_data_getter, new_components,
}
use elrond_eth_bridge.System.Create as SystemCreate
use elrond_eth_bridge.Relayers
use elrond_eth_bridge.Signatures.{new_signatures_holder}
use elrond_eth_bridge.Ethereum.Create.{new_ethereum_client}
use elrond_eth_bridge.Ethereum.Create as EthereumCreate
use elrond_eth_bridge.Elrond.Availability.{new_client, check_gas_map_values, check_gas_values}
use elrond_eth_bridge.Elrond.Availability

-- A pending batch, with one deposit, is what the contract on Elrond answers to every query.
abbrev answer : List Bytes
answer = (8 ∷ []) ∷ [] ∷ (21 ∷ []) ∷ (1 ∷ []) ∷ (2 ∷ []) ∷ (7 ∷ []) ∷ (20 ∷ []) ∷ []

abbrev node : Node ℕ
node = record {
  to_vm_value_request = λ query. ok (some []);
  execute_vm_query =
      λ request w. (ok (record { return_code = 111 ∷ 107 ∷ []; return_data = answer }), w);
  get_shard_of_address = λ w. (ok 0, w);
  get_network_status = λ shard w. (ok (some 77), w);
}

abbrev own : HalfServices ℕ
own = record {
  interval_for_leader = 6;
  validator = asking (record {
    marshal_batch = λ b. ok [];
    new_request = λ body. ok body;
    do_request = λ request w.
        (ok (record { status_code = 200; has_body = true; body = 1 ∷ []; read_error = none }), w);
    unmarshal_response = λ body. ok true;
    unmarshal_bad_response = λ body. ok [];
  });
  set_int_metric = λ m v w. w;
  set_string_metric = λ m v w. w;
  log = λ l m w. w;
  wait = λ w. (true, w);
}

-- This relayer is the only one that is whitelisted, and two signatures of the hash of the batch came
-- in.
abbrev services : Services ℕ
services = record {
  chain = record chain { keccak256 = λ bytes. 9 ∷ [] };
  node = node;
  get_network_config = λ w. (ok tt, w);
  get_nonce = λ w. (ok 5, w);
  to_data_bytes = λ tx. ok [];
  sign_transaction = λ nonce limit bytes w. (ok bytes, w);
  send_transaction = λ tx w. (ok [], w);
  to_bech32_string = λ bytes. "";
  to_hex_string_with_prefix = λ bytes. "";
  text = λ bytes. "";
  error_text = λ e. "";
  fetched_in_a_row_text = λ nonce n. "";
  whitelisted = λ w. (50 ∷ []) ∷ [];
  hash = λ bytes. bytes;
  now = λ w. 1000;
  set_int_metric = λ m v w. w;
  set_string_metric = λ m v w. w;
  of_half = λ half. own;
  level_text = λ l. "";
  receive = λ w holder. client.signature_holder;
}

abbrev system : System ℕ
system = record {
  ethereum = record client {
    signature_holder = record { signed_messages = []; eth_messages = [] };
  };
  elrond = record {
    gas_map_config = record {
      sign = 8;
      propose_transfer_base = 100;
      propose_transfer_for_each = 10;
      propose_status_base = 50;
      propose_status_for_each = 5;
      perform_action_base = 70;
      perform_action_for_each = 7;
    };
    allow_delta = 1;
    last_nonce = 0;
    retries_availability_check = 0;
    world = record {
      relayer_address = 50 ∷ [];
      was_shard_id_fetched = false;
      shard_id = 0;
      world = 0;
    };
    transactions = [];
  };
  world = 0;
  panicked = false;
}

abbrev args : ArgsBridgeExecutor
args = record {
  time_for_wait_on_ethereum = pos 2000000000;
  max_quorum_retries_on_ethereum = 3;
  max_quorum_retries_on_elrond = 3;
  max_retries_on_was_proposed = 3;
}

abbrev halves : List Half
halves =
    elrond_to_ethereum ∷ ethereum_to_elrond ∷ elrond_to_ethereum ∷ elrond_to_ethereum
    ∷ elrond_to_ethereum ∷ []

-- The relayer that is created.
abbrev relayer : Relayer ℕ
relayer = record {
  eth_machine = EthToElrond.Machine.machine (environment services ethereum_to_elrond);
  eth_executor = create_bridge_executor args;
  eth_calls = [];
  elrond_machine = ElrondToEth.Machine.machine (environment services elrond_to_ethereum);
  elrond_executor = create_bridge_executor args;
  elrond_calls = [];
  system = system;
}

abbrev components : ArgsComponents
components = record {
  time_for_bootstrap = pos 20000000000;
  time_before_repeat_join = pos 300000000000;
  elrond_relayer_address = 50 ∷ [];
  ethereum_relayer_address = 60 ∷ [];
  gas_map = system.elrond.gas_map_config;
  proxy_max_nonces_delta = 1;
  safe_contract_address = 61 ∷ [];
  gas_limit_base = 100;
  gas_limit_for_each = 50;
  max_blocks_delta = 1;
  executor = args;
}

created : new_relayer services args system ≡ ok relayer
unfolding new_relayer new_bridge_executor check_args
created = ground (
  arith,
  EthToElrond.Machine.create_state_machine_lem (environment services ethereum_to_elrond),
  ElrondToEth.Machine.create_state_machine_lem (environment services elrond_to_ethereum),
)

made : new_system services components 0 ≡ ok system
unfolding new_system new_client new_ethereum_client new_data_getter new_signatures_holder
    Availability.check_args EthereumCreate.check_args check_gas_map_values check_gas_values
made = refl

started : new_components services components 0 ≡ ok relayer
unfolding new_components new_bridges SystemCreate.check_args Relayers.check_args
started = ground (arith, made, created)

services-IsConfigured : IsConfigured services
services-IsConfigured = record {
  quorum_fits = λ w q e. ground (arith, e);
  requests_made = λ half body. (body, refl);
}

started_run_safe_example :
    Holds (WentWell services (length halves)) (run_relayer services halves relayer)
started_run_safe_example =
    started_run_safe services halves components 0 relayer services-IsConfigured started
