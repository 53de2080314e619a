-- ===== src/Elrond/Requests.antt =====
-- clients/elrond/client.go and clients/elrond/transactionHandler.go: the transactions of the relayer.
pub mod Sent
use elrond_eth_bridge.Common.{
  ℕ, ◌+◌, ◌*◌, ◌≤◌, ◌≡◌, ◌≢◌, ◌⊎◌, inl, inr, refl, String, Bool, true, false, Option, some, none,
  List, [], ◌∷◌, ◌++◌, Result, ok, err, Error, length, u64, nil_batch, multisig_contract_paused,
  relayer_not_whitelisted, arith,
}
use elrond_eth_bridge.Common.Bytes.{Bytes}
use elrond_eth_bridge.Common.Int.{int64}
use elrond_eth_bridge.Common.State.{State, give, ◌>>=◌, or_fail}
use elrond_eth_bridge.Batch.{DepositTransfer, TransferBatch}
use elrond_eth_bridge.Elrond.{
  Arg, arg_int64, arg_bytes, arg_big_int, TxData, Transaction, GasMapConfig, Proxy, Client, ask,
  send,
}

-- The arguments for the statuses and for the deposits.
unfoldable pub status_args : Bytes → List Arg
status_args [] = []
status_args (stat ∷ statuses) = arg_bytes (stat ∷ []) ∷ status_args statuses

unfoldable pub deposit_args : List DepositTransfer → List Arg
deposit_args [] = []
deposit_args (dt ∷ deposits) =
    arg_bytes dt.from_bytes
    ∷ arg_bytes dt.to_bytes
    ∷ arg_bytes dt.converted_token_bytes
    ∷ arg_big_int dt.amount
    ∷ arg_int64 (int64 dt.nonce)
    ∷ deposit_args deposits

-- `createCommonTxDataBuilder`, with the arguments that follow.
unfoldable pub create_tx_data : String → ℕ → List Arg → TxData
create_tx_data func_name id args = record {
  function = func_name;
  args = arg_int64 (int64 id) ∷ args;
}

-- A base, and as much again for each element, as `uint64` values.
unfoldable pub gas_limit : ℕ → ℕ → ℕ → ℕ
gas_limit base for_each count = u64 (base + u64 (u64 count * for_each))

module _ {W : Type 0} (proxy : Proxy W) where
  -- `checkIsPaused`
  unfoldable pub check_is_paused : State (Client W) (Result (Unit {0}))
  check_is_paused = ask proxy.is_paused >>= λ r. or_fail r λ is_paused. elim is_paused [
    | true ↦ give (err multisig_contract_paused)
    | false ↦ give (ok tt)
  ]

  -- `signTransaction` with `signTransactionWithPrivateKey`
  unfoldable pub sign_transaction : TxData → ℕ → State (Client W) (Result Transaction)
  sign_transaction tx_data limit = ask proxy.get_network_config >>= λ r. or_fail r λ _.
      ask proxy.get_nonce >>= λ r. or_fail r λ nonce.
        or_fail (proxy.to_data_bytes tx_data) λ data_bytes.
          ask (proxy.sign_transaction nonce limit data_bytes) >>= λ r. or_fail r λ signature. give (
            ok (record {
              nonce = nonce;
              gas_limit = limit;
              tx_data = data_bytes;
              signature = signature;
            }))

  -- `SendTransactionReturnHash`
  unfoldable pub send_transaction_return_hash : TxData → ℕ → State (Client W) (Result Bytes)
  send_transaction_return_hash tx_data limit = ask proxy.is_whitelisted >>= λ listed. elim listed [
    | false ↦ give (err relayer_not_whitelisted)
    | true ↦ sign_transaction tx_data limit >>= λ r. or_fail r λ tx. send proxy tx
  ]

  -- What the four requests share: the check of the contract, and the transaction.
  abbrev pub send_unpaused : TxData → ℕ → State (Client W) (Result Bytes)
  send_unpaused tx_data limit =
      check_is_paused >>= λ r. or_fail r λ _. send_transaction_return_hash tx_data limit

  -- `ProposeSetStatus`
  unfoldable pub propose_set_status : Option TransferBatch → State (Client W) (Result Bytes)
  unfolding status_args
  propose_set_status none s = (err nil_batch, s)
  propose_set_status (some batch) s =
      send_unpaused
        (create_tx_data "proposeEsdtSafeSetCurrentTransactionBatchStatus" batch.id
          (status_args batch.statuses))
        (gas_limit s.gas_map_config.propose_status_base s.gas_map_config.propose_status_for_each
          (length batch.deposits))
        s

  -- `ProposeTransfer`
  unfoldable pub propose_transfer : Option TransferBatch → State (Client W) (Result Bytes)
  unfolding deposit_args
  propose_transfer none s = (err nil_batch, s)
  propose_transfer (some batch) s =
      send_unpaused
        (create_tx_data "proposeMultiTransferEsdtBatch" batch.id (deposit_args batch.deposits))
        (gas_limit s.gas_map_config.propose_transfer_base s.gas_map_config.propose_transfer_for_each
          (length batch.deposits))
        s

  -- `Sign`
  unfoldable pub sign : ℕ → State (Client W) (Result Bytes)
  sign action_id s = send_unpaused (create_tx_data "sign" action_id []) s.gas_map_config.sign s

  -- `PerformAction`
  unfoldable pub perform_action : ℕ → Option TransferBatch → State (Client W) (Result Bytes)
  perform_action action_id none s = (err nil_batch, s)
  perform_action action_id (some batch) s =
      send_unpaused (create_tx_data "performAction" action_id [])
        (gas_limit s.gas_map_config.perform_action_base s.gas_map_config.perform_action_for_each
          (length batch.statuses))
        s
