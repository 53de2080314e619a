-- ===== src/System/Create.antt =====
-- NewEthElrondBridgeComponents of factory/ethElrondBridgeComponents.go: the clients, the handlers of
-- the topology, and the executors and machines of both halves. What is read from files, the role
-- providers, the broadcaster, the gas station, the validators and the status handlers are among the
-- services.
use elrond_eth_bridge.Common.{ℕ, Result, ok, err, false, if◌then◌else◌, invalid_value}
use elrond_eth_bridge.Common.Bytes.{Bytes}
use elrond_eth_bridge.Common.Int.{ℤ, pos, ltb_ℤ}
use elrond_eth_bridge.Signatures.{new_signatures_holder}
use elrond_eth_bridge.Relayers
use elrond_eth_bridge.Ethereum.Create.{new_ethereum_client}
use elrond_eth_bridge.Elrond.{GasMapConfig}
use elrond_eth_bridge.Elrond.DataGetter.{DataGetter}
use elrond_eth_bridge.Elrond.Availability.{new_client}
use elrond_eth_bridge.Bridge.Executor.Create.{ArgsBridgeExecutor}
use elrond_eth_bridge.System.{Half, ethereum_to_elrond, elrond_to_ethereum, Services, System}
use elrond_eth_bridge.System.Relayer.{Relayer, new_relayer}

-- The fields of `ArgsEthereumToElrondBridge` and of its configuration that reach the parts below, with
-- the addresses of the relayer's keys. Durations are in nanoseconds.
pub record ArgsComponents : Type 0 where
  pub time_for_bootstrap : ℤ
  pub time_before_repeat_join : ℤ
  pub elrond_relayer_address : Bytes
  pub ethereum_relayer_address : Bytes
  pub gas_map : GasMapConfig
  pub proxy_max_nonces_delta : ℕ
  pub safe_contract_address : Bytes
  pub gas_limit_base : ℕ
  pub gas_limit_for_each : ℕ
  pub max_blocks_delta : ℕ
  pub executor : ArgsBridgeExecutor

-- 100 milliseconds and 30 seconds.
abbrev min_time_for_bootstrap : ℤ
min_time_for_bootstrap = pos 100000000

abbrev min_time_before_repeat_join : ℤ
min_time_before_repeat_join = pos 30000000000

-- `checkArgsEthereumToElrondBridge`, of the arguments that are numbers.
unfoldable pub check_args : ArgsComponents → Result (Unit {0})
check_args args =
    if ltb_ℤ args.time_for_bootstrap min_time_for_bootstrap
    then err invalid_value
    else if ltb_ℤ args.time_before_repeat_join min_time_before_repeat_join
    then err invalid_value
    else ok tt

-- `NewDataGetter`
unfoldable pub new_data_getter : {W : Type 0} → Bytes → W → DataGetter W
new_data_getter relayer_address world = record {
  relayer_address = relayer_address;
  was_shard_id_fetched = false;
  shard_id = 0;
  world = world;
}

module _ {W : Type 0} (services : Services W) where
  -- `createDataGetter`, `createElrondClient` and `createEthereumClient`.
  unfoldable pub new_system : ArgsComponents → W → Result (System W)
  new_system args world =
      elim (new_client args.proxy_max_nonces_delta args.gas_map
        (new_data_getter args.elrond_relayer_address world)) [
          | err e ↦ err e
          | ok elrond ↦
              elim (new_ethereum_client
                (record {
                  relayer_address = args.ethereum_relayer_address;
                  signature_holder = new_signatures_holder;
                  safe_contract_address = args.safe_contract_address;
                  transfer_gas_limit_base = args.gas_limit_base;
                  transfer_gas_limit_for_each = args.gas_limit_for_each;
                  allow_delta = args.max_blocks_delta;
                })
                world) [
                  | err e ↦ err e
                  | ok ethereum ↦ ok (record {
                    ethereum = ethereum;
                    elrond = elrond;
                    world = world;
                    panicked = false;
                  })
                ]
        ]

  -- The check of the handler of the topology of a half.
  abbrev pub check_topology : Half → ArgsComponents → Result (Unit {0})
  check_topology half args =
      Relayers.check_args (pos (services.of_half half).interval_for_leader)
        args.elrond_relayer_address

  -- The bridge of each half, whose topology is checked before its executor is made.
  unfoldable pub new_bridges : ArgsComponents → System W → Result (Relayer W)
  new_bridges args system = elim (check_topology ethereum_to_elrond args) [
    | err e ↦ err e
    | ok _ ↦ elim (new_relayer services args.executor system) [
      | err e ↦ err e
      | ok relayer ↦ elim (check_topology elrond_to_ethereum args) [
        | err e ↦ err e
        | ok _ ↦ ok relayer
      ]
    ]
  ]

  -- `NewEthElrondBridgeComponents`
  unfoldable pub new_components : ArgsComponents → W → Result (Relayer W)
  new_components args world = elim (check_args args) [
    | err e ↦ err e
    | ok _ ↦ elim (new_system args world) [ err e ↦ err e | ok system ↦ new_bridges args system ]
  ]
