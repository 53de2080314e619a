-- ===== src/Ethereum/Wrappers.antt =====
-- clients/ethereum/wrappers and clients/ethereum/erc20ContractsHolder.go: the chain as the Ethereum
-- client sees it. Each call counts itself among the metrics and goes on to a contract or to the node.
pub mod Cached
mod Tests
use elrond_eth_bridge.Common.{ℕ, String, Bool, Option, some, none, List, [], ◌∷◌, Result, ok, err}
use elrond_eth_bridge.Common.Bytes.{Bytes, Bytes-discrete}
use elrond_eth_bridge.Common.Int.{ℤ, pos, int64}
use elrond_eth_bridge.Common.Maps.{lookup, put}
use elrond_eth_bridge.Common.State.{State}
use elrond_eth_bridge.Ethereum.{ContractBatch, ContractDeposit, Transaction}

-- `multiSigContract`, `blockchainClient`, the ERC20 contracts with the function that binds one to its
-- address, and the status handler. `C` is the type of the bound ERC20 contracts.
pub record Contracts (C W : Type 0) : Type 0 where
  pub get_batch : ℕ → W → Result ContractBatch × W
  pub get_batch_deposits : ℕ → W → Result (List ContractDeposit) × W
  pub get_relayers : W → Result (List Bytes) × W
  pub was_batch_executed : ℕ → W → Result Bool × W
  pub chain_id : W → Result ℕ × W
  pub block_number : W → Result ℕ × W
  pub nonce_at : Bytes → ℤ → W → Result ℕ × W
  pub execute_transfer : Transaction → W → Result Bytes × W
  pub quorum : W → Result ℕ × W
  pub get_statuses_after_execution : ℕ → W → Result Bytes × W
  pub balance_at : Bytes → W → Result ℤ × W
  pub paused : W → Result Bool × W
  pub new_generic_erc20 : Bytes → Result C
  pub balance_of : C → Bytes → W → Result ℤ × W
  pub add_int_metric : String → ℤ → W → W
  pub set_int_metric : String → ℤ → W → W

abbrev pub num_eth_client_requests : String
num_eth_client_requests = "num ethereum client requests"

abbrev pub num_eth_client_transactions : String
num_eth_client_transactions = "num ethereum client transactions"

abbrev pub last_queried_ethereum_block_number : String
last_queried_ethereum_block_number = "ethereum last queried block number"

-- `erc20SafeContractsHolder`, with the world.
pub record ContractsHolder (C W : Type 0) : Type 0 where
  pub contracts : List (Bytes × C)
  pub world : W

module _ {C W : Type 0} (on : Contracts C W) where
  abbrev counted : {A : Type 0} → String → State W A → State W A
  counted metric f w = f (on.add_int_metric metric (pos 1) w)

  -- The methods of `ethereumChainWrapper`.
  unfoldable pub get_batch : ℕ → State W (Result ContractBatch)
  get_batch batch_nonce = counted num_eth_client_requests (on.get_batch batch_nonce)

  unfoldable pub get_batch_deposits : ℕ → State W (Result (List ContractDeposit))
  get_batch_deposits batch_nonce =
      counted num_eth_client_requests (on.get_batch_deposits batch_nonce)

  unfoldable pub get_relayers : State W (Result (List Bytes))
  get_relayers = counted num_eth_client_requests on.get_relayers

  unfoldable pub was_batch_executed : ℕ → State W (Result Bool)
  was_batch_executed batch_nonce =
      counted num_eth_client_requests (on.was_batch_executed batch_nonce)

  unfoldable pub chain_id : State W (Result ℕ)
  chain_id = counted num_eth_client_requests on.chain_id

  abbrev noted : Result ℕ × W → Result ℕ × W
  noted (err e, w) = (err e, w)
  noted (ok val, w) = (ok val, on.set_int_metric last_queried_ethereum_block_number (int64 val) w)

  unfoldable pub block_number : State W (Result ℕ)
  block_number w = noted (counted num_eth_client_requests on.block_number w)

  unfoldable pub nonce_at : Bytes → ℤ → State W (Result ℕ)
  nonce_at account number = counted num_eth_client_requests (on.nonce_at account number)

  unfoldable pub execute_transfer : Transaction → State W (Result Bytes)
  execute_transfer tx = counted num_eth_client_transactions (on.execute_transfer tx)

  unfoldable pub quorum : State W (Result ℕ)
  quorum = counted num_eth_client_requests on.quorum

  unfoldable pub get_statuses_after_execution : ℕ → State W (Result Bytes)
  get_statuses_after_execution id =
      counted num_eth_client_requests (on.get_statuses_after_execution id)

  unfoldable pub balance_at : Bytes → State W (Result ℤ)
  balance_at account = counted num_eth_client_requests (on.balance_at account)

  unfoldable pub is_paused : State W (Result Bool)
  is_paused = on.paused

  -- `BalanceOf` of `erc20ContractWrapper`.
  unfoldable pub erc20_balance_of : C → Bytes → State W (Result ℤ)
  erc20_balance_of contract account =
      counted num_eth_client_requests (on.balance_of contract account)

  abbrev through : C → Bytes → State (ContractsHolder C W) (Result ℤ)
  through contract account h = (
    (erc20_balance_of contract account h.world).0,
    record h { world = (erc20_balance_of contract account h.world).1 },
  )

  -- `BalanceOf` of the holder.
  unfoldable pub balance_of : Bytes → Bytes → State (ContractsHolder C W) (Result ℤ)
  balance_of erc20_address address h = elim (lookup Bytes-discrete erc20_address h.contracts) [
    | some wrapper ↦ through wrapper address h
    | none ↦ elim (on.new_generic_erc20 erc20_address) [
      | err e ↦ (err e, h)
      | ok contract ↦
          through contract address
            (record h { contracts = put Bytes-discrete erc20_address contract h.contracts })
    ]
  ]
