-- ===== src/Ethereum/Create.antt =====
-- NewEthereumClient of clients/ethereum/client.go, but for its nil checks and the type of the key.
use elrond_eth_bridge.Common.{
  ℕ, ◌==◌, [], Result, ok, err, ltb, if◌then◌else◌, invalid_value, invalid_gas_limit,
}
use elrond_eth_bridge.Common.Bytes.{Bytes}
use elrond_eth_bridge.Signatures.{SignaturesHolder}
use elrond_eth_bridge.Ethereum.{Client}

-- `ArgsEthereumClient`, without the code behind the client; the private key is kept as its address.
pub record ArgsEthereumClient : Type 0 where
  pub relayer_address : Bytes
  pub signature_holder : SignaturesHolder
  pub safe_contract_address : Bytes
  pub transfer_gas_limit_base : ℕ
  pub transfer_gas_limit_for_each : ℕ
  pub allow_delta : ℕ

abbrev min_allowed_delta : ℕ
min_allowed_delta = 1

-- `checkArgs`, of the arguments that are numbers.
unfoldable pub check_args : ArgsEthereumClient → Result (Unit {0})
check_args args =
    if args.transfer_gas_limit_base == 0
    then err invalid_gas_limit
    else if args.transfer_gas_limit_for_each == 0
    then err invalid_gas_limit
    else if ltb args.allow_delta min_allowed_delta
    then err invalid_value
    else ok tt

-- `NewEthereumClient`
unfoldable pub new_ethereum_client : {W : Type 0} → ArgsEthereumClient → W → Result (Client W)
new_ethereum_client args world = elim (check_args args) [
  | err e ↦ err e
  | ok _ ↦ ok (record {
    relayer_address = args.relayer_address;
    safe_contract_address = args.safe_contract_address;
    transfer_gas_limit_base = args.transfer_gas_limit_base;
    transfer_gas_limit_for_each = args.transfer_gas_limit_for_each;
    allow_delta = args.allow_delta;
    last_block_number = 0;
    retries_availability_check = 0;
    signature_holder = args.signature_holder;
    world = world;
    calls = [];
  })
]
