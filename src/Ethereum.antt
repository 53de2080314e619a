-- ===== src/Ethereum.antt =====
-- clients/ethereum/client.go: the state of the Ethereum client, and what it works with.
pub mod Batches
pub mod Transfer
pub mod Availability
pub mod Create
pub mod Example
pub mod Wrappers
use elrond_eth_bridge.Common.{
  ℕ, String, Bool, List, ◌∷◌, Option, some, none, Result, ok, err, Error,
}
use elrond_eth_bridge.Common.Bytes.{Bytes}
use elrond_eth_bridge.Common.Int.{ℤ}
use elrond_eth_bridge.Common.Panic.{Run, pure, ◌>>=◌, ◌>>◌, or_return}
use elrond_eth_bridge.Signatures.{SignaturesHolder}

-- `contract.Batch` and `contract.Deposit`, which are generated: the fields that the client reads.
-- The numbers are unsigned in the contract.
pub record ContractBatch : Type 0 where
  pub nonce : ℕ
  pub deposits_count : ℕ

pub record ContractDeposit : Type 0 where
  pub nonce : ℕ
  pub token_address : Bytes
  pub amount : ℤ
  pub depositor : Bytes
  pub recipient : Bytes

-- `argListsBatch`
pub record ArgListsBatch : Type 0 where
  pub tokens : List Bytes
  pub recipients : List Bytes
  pub amounts : List ℤ
  pub nonces : List ℕ

-- What `clientWrapper.ExecuteTransfer` is called with; the first three are of the `TransactOpts`.
pub record Transaction : Type 0 where
  pub nonce : ℤ
  pub gas_limit : ℕ
  pub gas_price : ℤ
  pub lists : ArgListsBatch
  pub batch_id : ℕ
  pub signatures : List Bytes

pub data ClientStatus : Type 0 where
  available unavailable : ClientStatus

-- The code behind the client: the wrapper of the contract, the ERC20 contracts, the gas handler, the
-- tokens mapper, the broadcaster, the status handler, and go-ethereum's functions. `pack` is the
-- ABI packing of the transfer with its fixed list of types, and the last two are the texts of
-- `Error` and of the `Sprintf` in `CheckClientAvailability`.
pub record Chain (W : Type 0) : Type 0 where
  pub get_batch : ℕ → W → Result ContractBatch × W
  pub get_batch_deposits : ℕ → W → Result (List ContractDeposit) × W
  pub was_batch_executed : ℕ → W → Result Bool × W
  pub chain_id : W → Result ℕ × W
  pub block_number : W → Result ℕ × W
  pub nonce_at : Bytes → ℤ → W → Result ℕ × W
  pub execute_transfer : Transaction → W → Result Bytes × W
  pub quorum : W → Result ℕ × W
  pub get_statuses_after_execution : ℕ → W → Result Bytes × W
  pub balance_at : Bytes → W → Result ℤ × W
  pub is_paused : W → Result Bool × W
  pub balance_of : Bytes → Bytes → W → Result ℤ × W
  pub get_current_gas_price : W → Result ℤ × W
  pub convert_token : Bytes → W → Result Bytes × W
  pub broadcast_signature : Bytes → Bytes → W → W
  pub set_string_metric : String → String → W → W
  pub set_int_metric : String → ℤ → W → W
  pub new_keyed_transactor : ℕ → Result (Unit {0})
  pub sign : Bytes → Result Bytes
  pub bytes_to_address : Bytes → Bytes
  pub pack : ArgListsBatch → ℕ → Result Bytes
  pub keccak256 : Bytes → Bytes
  pub to_bech32_string : Bytes → String
  pub to_hex_string : Bytes → String
  pub error_text : Error → String
  pub fetched_in_a_row_text : ℕ → ℕ → String

-- An answer on which a transfer rests, or a transfer that is sent.
pub data Call : Type 0 where
  paused : Bool → Call
  safe_balance : Bytes → ℤ → Call
  relayer_balance : ℤ → Call
  transaction_sent : Transaction → Call

-- `client`: its configuration, its counters, the signature holder that it shares with the
-- broadcaster, the world, and the calls so far, newest first. The public key is kept as its address.
pub record Client (W : Type 0) : Type 0 where
  pub relayer_address : Bytes
  pub safe_contract_address : Bytes
  pub transfer_gas_limit_base : ℕ
  pub transfer_gas_limit_for_each : ℕ
  pub allow_delta : ℕ
  pub last_block_number : ℕ
  pub retries_availability_check : ℕ
  pub signature_holder : SignaturesHolder
  pub world : W
  pub calls : List Call

module _ {W : Type 0} where
  abbrev pub ask : {A : Type 0} → (W → A × W) → Run (Client W) A
  ask f s = some ((f s.world).0, record s { world = (f s.world).1 })

  abbrev pub tell : (W → W) → Run (Client W) (Unit {0})
  tell f s = some (tt, record s { world = f s.world })

  abbrev pub record_call : Call → Run (Client W) (Unit {0})
  record_call c s = some (tt, record s { calls = c ∷ s.calls })

  -- A question whose answer, if there is one, is recorded.
  abbrev pub ask_recorded :
      {A : Type 0} → (W → Result A × W) → (A → Call) → Run (Client W) (Result A)
  ask_recorded f c = do r ← ask f; or_return r (λ a. record_call (c a) >> pure (ok a))
