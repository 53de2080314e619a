-- ===== src/System.antt =====
-- factory/ethElrondBridgeComponents.go: the bridge executor on the two clients of this library. The
-- clients share one world, which the other parts change: each call of a client starts from it, and
-- leaves it changed. A panic of a client is noted, and the call then returns an error.
pub mod Amounts
pub mod Backed
pub mod Quiet
pub mod Safety
pub mod Relayer
pub mod Create
pub mod Started
pub mod Lifecycle
mod Tests
use elrond_eth_bridge.Common.{
  ℕ, String, Bool, true, false, Option, some, none, List, Result, ok, err, Error, nil_batch,
}
use elrond_eth_bridge.Common.Bytes.{Bytes}
use elrond_eth_bridge.Common.Int.{ℤ}
use elrond_eth_bridge.Common.Panic.{Run}
use elrond_eth_bridge.Common.State.{State}
use elrond_eth_bridge.Batch.{TransferBatch}
use elrond_eth_bridge.Batch.Validator.{BatchValidator, validate}
use elrond_eth_bridge.Signatures.{SignaturesHolder, clear_stored_signatures}
use elrond_eth_bridge.Relayers.{TopologyHandler, is_whitelisted, my_turn_at}
use elrond_eth_bridge.Ethereum
use elrond_eth_bridge.Ethereum.{Chain}
use elrond_eth_bridge.Elrond
use elrond_eth_bridge.Elrond.{Proxy, TxData, Transaction}
use elrond_eth_bridge.Elrond.DataGetter.{DataGetter, Node, elrond_to_erc20}
use elrond_eth_bridge.Bridge.Clients.{LogLevel, ElrondClient, EthereumClient, Environment}

-- The half-bridges, and what each has of its own: the configured interval of a leader, the validator
-- of batches, its status handler, its log and its timer.
pub data Half : Type 0 where
  ethereum_to_elrond elrond_to_ethereum : Half

pub record HalfServices (W : Type 0) : Type 0 where
  pub interval_for_leader : ℕ
  pub validator : BatchValidator W
  pub set_int_metric : String → ℤ → W → W
  pub set_string_metric : String → String → W → W
  pub log : LogLevel → String → W → W
  pub wait : W → Bool × W

-- What is behind the clients and the executors: the code behind the Ethereum client, the node of
-- Elrond, the SDK's functions on transactions, the whitelisted addresses that the Elrond role
-- provider has fetched, the clock, the status handler of the Elrond client, and what the signature
-- holder is once the messages that came in since were processed.
pub record Services (W : Type 0) : Type 0 where
  pub chain : Chain W
  pub node : Node W
  pub get_network_config : W → Result (Unit {0}) × W
  pub get_nonce : W → Result ℕ × W
  pub to_data_bytes : TxData → Result Bytes
  pub sign_transaction : ℕ → ℕ → Bytes → W → Result Bytes × W
  pub send_transaction : Transaction → W → Result Bytes × W
  pub to_bech32_string : Bytes → String
  pub to_hex_string_with_prefix : Bytes → String
  pub text : Bytes → String
  pub error_text : Error → String
  pub fetched_in_a_row_text : ℕ → ℕ → String
  pub whitelisted : W → List Bytes
  pub hash : Bytes → Bytes
  pub now : W → ℕ
  pub set_int_metric : String → ℤ → W → W
  pub set_string_metric : String → String → W → W
  pub of_half : Half → HalfServices W
  pub level_text : LogLevel → String
  pub receive : W → SignaturesHolder → SignaturesHolder

-- Both clients, with the world that they share, and whether a client has panicked.
pub record System (W : Type 0) : Type 0 where
  pub ethereum : Ethereum.Client W
  pub elrond : Elrond.Client (DataGetter W)
  pub world : W
  pub panicked : Bool

-- A batch that is returned without an error is not nil; a hash is only logged.
abbrev pub not_nil : Result TransferBatch → Result (Option TransferBatch)
not_nil (ok b) = ok (some b)
not_nil (err e) = err e

abbrev pub no_hash : Result Bytes → Result (Unit {0})
no_hash (ok _) = ok tt
no_hash (err e) = err e

module _ {W : Type 0} (services : Services W) where
  open services use {chain, node}

  abbrev on_getter : {A : Type 0} → (W → A × W) → DataGetter W → A × DataGetter W
  on_getter f d = ((f d.world).0, record d { world = (f d.world).1 })

  -- What the Elrond client works with: the data getter, with a tokens mapper over it, and the role
  -- provider.
  unfoldable pub proxy : Proxy (DataGetter W)
  proxy = record {
    get_current_batch_as_data_bytes = Elrond.DataGetter.get_current_batch_as_data_bytes node;
    is_paused = Elrond.DataGetter.is_paused node;
    is_whitelisted = λ d. (is_whitelisted d.relayer_address (services.whitelisted d.world), d);
    get_network_config = on_getter services.get_network_config;
    get_nonce = on_getter services.get_nonce;
    to_data_bytes = services.to_data_bytes;
    sign_transaction = λ nonce limit bytes. on_getter (services.sign_transaction nonce limit bytes);
    send_transaction = λ tx. on_getter (services.send_transaction tx);
    convert_token = elrond_to_erc20 node;
    get_current_nonce = Elrond.DataGetter.get_current_nonce node;
    set_string_metric = λ m v d. record d { world = services.set_string_metric m v d.world };
    set_int_metric = λ m v d. record d { world = services.set_int_metric m v d.world };
    error_text = services.error_text;
    fetched_in_a_row_text = services.fetched_in_a_row_text;
    to_bech32_string = services.to_bech32_string;
    to_hex_string_with_prefix = services.to_hex_string_with_prefix;
    text = services.text;
  }

  -- The Ethereum client at a call, with the messages that came in.
  abbrev pub ethereum_at : System W → Ethereum.Client W
  ethereum_at s = record s.ethereum {
    world = s.world;
    signature_holder = services.receive s.world s.ethereum.signature_holder;
  }

  abbrev pub after_ethereum : System W → Ethereum.Client W → System W
  after_ethereum s c = record s { ethereum = c; world = c.world }

  -- A method of the Ethereum client that does not panic.
  abbrev pub call_ethereum : {A : Type 0} → State (Ethereum.Client W) A → State (System W) A
  call_ethereum m s = ((m (ethereum_at s)).0, after_ethereum s (m (ethereum_at s)).1)

  -- A method that may panic, by its outcome.
  abbrev pub returned :
      {A : Type 0} → System W → Option (Result A × Ethereum.Client W) → Result A × System W
  returned s none = (err nil_batch, record s { panicked = true })
  returned s (some (r, c)) = (r, after_ethereum s c)

  abbrev pub run_ethereum :
      {A : Type 0} → Run (Ethereum.Client W) (Result A) → State (System W) (Result A)
  run_ethereum m s = returned s (m (ethereum_at s))

  -- The Elrond client and its data getter at a call.
  abbrev pub elrond_at : System W → Elrond.Client (DataGetter W)
  elrond_at s = record s.elrond { world = record s.elrond.world { world = s.world } }

  abbrev pub call_elrond :
      {A : Type 0} → State (Elrond.Client (DataGetter W)) A → State (System W) A
  call_elrond m s = (
    (m (elrond_at s)).0,
    record s { elrond = (m (elrond_at s)).1; world = (m (elrond_at s)).1.world.world },
  )

  -- A query of the data getter that the client embeds.
  abbrev pub query : {A : Type 0} → State (DataGetter W) A → State (System W) A
  query m = call_elrond λ c. ((m c.world).0, record c { world = (m c.world).1 })

  abbrev pub call_services : {A : Type 0} → (W → A × W) → State (System W) A
  call_services f s = ((f s.world).0, record s { world = (f s.world).1 })

  abbrev pub fmap : {A B : Type 0} → (A → B) → State (System W) A → State (System W) B
  fmap f m s = (f (m s).0, (m s).1)

  unfoldable pub elrond_client : ElrondClient (System W)
  elrond_client = record {
    get_pending = fmap not_nil (call_elrond (Elrond.Pending.get_pending proxy));
    was_proposed_transfer = λ b. query (Elrond.DataGetter.was_proposed_transfer node (some b));
    quorum_reached = λ id. query (Elrond.DataGetter.quorum_reached node id);
    was_executed = λ id. query (Elrond.DataGetter.was_executed node id);
    get_action_id_for_propose_transfer =
        λ b. query (Elrond.DataGetter.get_action_id_for_propose_transfer node (some b));
    was_proposed_set_status = λ b. query (Elrond.DataGetter.was_proposed_set_status node (some b));
    get_action_id_for_set_status_on_pending_transfer = λ b.
        query (Elrond.DataGetter.get_action_id_for_set_status_on_pending_transfer node (some b));
    get_last_executed_eth_batch_id = query (Elrond.DataGetter.get_last_executed_eth_batch_id node);
    get_last_executed_eth_tx_id = query (Elrond.DataGetter.get_last_executed_eth_tx_id node);
    propose_set_status =
        λ b. fmap no_hash (call_elrond (Elrond.Requests.propose_set_status proxy (some b)));
    propose_transfer =
        λ b. fmap no_hash (call_elrond (Elrond.Requests.propose_transfer proxy (some b)));
    sign = λ id. fmap no_hash (call_elrond (Elrond.Requests.sign proxy id));
    was_signed = λ id. query (Elrond.DataGetter.was_signed node id);
    perform_action =
        λ id b. fmap no_hash (call_elrond (Elrond.Requests.perform_action proxy id (some b)));
    check_client_availability = call_elrond (Elrond.Availability.check_client_availability proxy);
  }

  -- The hash of a batch; a nil amount panics, which is noted.
  abbrev or_nil_batch : Option (Result Bytes) → Result Bytes
  or_nil_batch none = err nil_batch
  or_nil_batch (some r) = r

  abbrev hash_done : System W → Option (Result Bytes) → System W
  hash_done s none = record s { panicked = true }
  hash_done s (some _) = s

  abbrev broadcast_done : System W → Option (Unit {0} × Ethereum.Client W) → System W
  broadcast_done s none = record s { panicked = true }
  broadcast_done s (some (_, c)) = after_ethereum s c

  unfoldable pub ethereum_client : EthereumClient (System W)
  ethereum_client = record {
    get_batch = λ nonce. fmap not_nil (call_ethereum (Ethereum.Batches.get_batch chain nonce));
    was_executed = λ id. run_ethereum (Ethereum.Transfer.was_executed chain id);
    generate_message_hash =
        λ b. or_nil_batch (Ethereum.Transfer.generate_message_hash chain (some b));
    after_generate_message_hash =
        λ b s. hash_done s (Ethereum.Transfer.generate_message_hash chain (some b));
    broadcast_signature_for_message_hash = λ hash s.
        broadcast_done s
          (Ethereum.Transfer.broadcast_signature_for_message_hash chain hash (ethereum_at s));
    execute_transfer = λ hash b q.
        fmap no_hash (run_ethereum (Ethereum.Transfer.execute_transfer chain hash (some b) q));
    get_transactions_statuses =
        λ id. run_ethereum (Ethereum.Transfer.get_transactions_statuses chain id);
    get_quorum_size = run_ethereum (Ethereum.Transfer.get_quorum_size chain);
    is_quorum_reached = λ hash. run_ethereum (Ethereum.Transfer.is_quorum_reached chain hash);
    check_client_availability =
        call_ethereum (Ethereum.Availability.check_client_availability chain);
  }

  abbrev validated : System W → Option (Result Bool × W) → Result Bool × System W
  validated s none = (err nil_batch, record s { panicked = true })
  validated s (some (r, w)) = (r, record s { world = w })

  abbrev turn : System W → Option Bool → Bool × System W
  turn s none = (false, record s { panicked = true })
  turn s (some leads) = (leads, s)

  -- `ClearStoredSignatures`: the executor from Ethereum to Elrond has a disabled holder.
  abbrev clear : Half → System W → System W
  clear ethereum_to_elrond s = s
  clear elrond_to_ethereum s = record s {
    ethereum = record s.ethereum {
      signature_holder =
          clear_stored_signatures (services.receive s.world s.ethereum.signature_holder);
    };
  }

  -- The topology of a half-bridge shares the addresses of the role provider.
  unfoldable pub topology : Half → System W → TopologyHandler
  topology half s = record {
    whitelisted_addresses = services.whitelisted s.world;
    interval_for_leader = (services.of_half half).interval_for_leader;
    address_bytes = s.elrond.world.relayer_address;
  }

  -- What `createEthereumToElrondBridge` and `createElrondToEthereumBridge` give the executor.
  unfoldable pub environment : Half → Environment (System W)
  environment half =
      let own = services.of_half half in
      record {
        elrond_client = elrond_client;
        ethereum_client = ethereum_client;
        my_turn_as_leader =
            λ s. turn s (my_turn_at services.hash (services.now s.world) (topology half s));
        validate_batch = λ b s. validated s (validate own.validator b s.world);
        clear_stored_signatures = clear half;
        set_int_metric = λ m v s. record s { world = own.set_int_metric m v s.world };
        set_string_metric = λ m v s. record s { world = own.set_string_metric m v s.world };
        level_text = services.level_text;
        log = λ l m s. record s { world = own.log l m s.world };
        wait = call_services own.wait;
      }
