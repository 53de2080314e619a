-- ===== src/Ethereum/Transfer.antt =====
-- clients/ethereum/client.go: ExecuteTransfer with its checks, GenerateMessageHash, IsQuorumReached,
-- and the methods that only forward. Log lines are left out.
pub mod Cumulated
pub mod Balances
pub mod Sent
pub mod Quorum
mod Tests
use elrond_eth_bridge.Common.{
  ℕ, ◌+◌, ◌*◌, Bool, true, false, Option, some, none, List, [], ◌∷◌, ◌++◌, Result, ok, err, length,
  take, ltb, leb, u64, if◌then◌else◌, invalid_value, quorum_not_reached, nil_batch,
  multisig_contract_paused, insufficient_erc20_balance, insufficient_balance,
}
use elrond_eth_bridge.Common.Bytes.{Bytes, bytes_equal}
use elrond_eth_bridge.Common.Int.{ℤ, pos, negsuc, int64, ltb_ℤ, leb_ℤ, ◌+ℤ◌, ◌*ℤ◌}
use elrond_eth_bridge.Common.Panic.{Run, pure, panic, ◌>>=◌, ◌>>◌, or_return, or_panic}
use elrond_eth_bridge.Batch.{DepositTransfer, TransferBatch}
use elrond_eth_bridge.Signatures.{signatures}
use elrond_eth_bridge.Ethereum.{
  ArgListsBatch, Transaction, Chain, paused, safe_balance, relayer_balance, transaction_sent,
  Client, ask, tell, record_call, ask_recorded,
}

abbrev pub min_quorum_value : ℕ
min_quorum_value = 1

-- "\u0019Ethereum Signed Message:\n32"
abbrev message_prefix : Bytes
message_prefix =
    25 ∷ 69 ∷ 116 ∷ 104 ∷ 101 ∷ 114 ∷ 101 ∷ 117 ∷ 109 ∷ 32 ∷ 83 ∷ 105 ∷ 103 ∷ 110 ∷ 101 ∷ 100 ∷ 32
    ∷ 77 ∷ 101 ∷ 115 ∷ 115 ∷ 97 ∷ 103 ∷ 101 ∷ 58 ∷ 10 ∷ 51 ∷ 50 ∷ []

-- `transfers[token]`, from nothing found to the sum of the amounts.
unfoldable pub add_transfer : Bytes → ℤ → List (Bytes × ℤ) → List (Bytes × ℤ)
add_transfer token amount [] = (token, pos 0 +ℤ amount) ∷ []
add_transfer token amount ((t, sum) ∷ transfers) =
    if bytes_equal t token
    then (t, sum +ℤ amount) ∷ transfers
    else (t, sum) ∷ add_transfer token amount transfers

-- The loop of `getCumulatedTransfers`; an index out of range panics.
unfoldable pub cumulate : List Bytes → List ℤ → List (Bytes × ℤ) → Option (List (Bytes × ℤ))
cumulate [] amounts transfers = some transfers
cumulate (token ∷ tokens) [] transfers = none
cumulate (token ∷ tokens) (amount ∷ amounts) transfers =
    cumulate tokens amounts (add_transfer token amount transfers)

-- `getCumulatedTransfers`
unfoldable pub get_cumulated_transfers : List Bytes → List ℤ → Option (List (Bytes × ℤ))
get_cumulated_transfers tokens amounts = cumulate tokens amounts []

-- The signatures that are sent, of those that are held: at most `quorum`. A negative `quorum` is
-- a slice out of range.
unfoldable pub reduce_signatures : List Bytes → ℤ → Option (Result (List Bytes))
reduce_signatures sigs (negsuc q) = none
reduce_signatures sigs (pos q) =
    if ltb (length sigs) q then some (err quorum_not_reached) else some (ok (take q sigs))

module _ {W : Type 0} (chain : Chain W) where
  -- `extractList`; the copy of a nil amount panics.
  unfoldable pub extract_list : List DepositTransfer → Option ArgListsBatch
  extract_list [] = some (record { tokens = []; recipients = []; amounts = []; nonces = [] })
  extract_list (dt ∷ deposits) =
      let rest = extract_list deposits in
      elim dt.amount [
        | none ↦ none
        | some amount ↦ elim rest [
          | none ↦ none
          | some arg ↦ some (record {
            tokens = chain.bytes_to_address dt.converted_token_bytes ∷ arg.tokens;
            recipients = chain.bytes_to_address dt.to_bytes ∷ arg.recipients;
            amounts = amount ∷ arg.amounts;
            nonces = dt.nonce ∷ arg.nonces;
          })
        ]
      ]

  -- `GenerateMessageHash`
  unfoldable pub generate_message_hash : Option TransferBatch → Option (Result Bytes)
  generate_message_hash none = some (err nil_batch)
  generate_message_hash (some batch) = elim (extract_list batch.deposits) [
    | none ↦ none
    | some arg_lists ↦ elim (chain.pack arg_lists batch.id) [
      | err e ↦ some (err e)
      | ok pack ↦ some (ok (chain.keccak256 (message_prefix ++ chain.keccak256 pack)))
    ]
  ]

  -- `BroadcastSignatureForMessageHash`
  unfoldable pub broadcast_signature_for_message_hash : Bytes → Run (Client W) (Unit {0})
  broadcast_signature_for_message_hash msg_hash = elim (chain.sign msg_hash) [
    | err _ ↦ pure tt
    | ok signature ↦ tell (chain.broadcast_signature signature msg_hash)
  ]

  -- `checkCumulatedTransfers`, in the order in which the tokens first occur.
  unfoldable pub check_cumulated_transfers : List (Bytes × ℤ) → Run (Client W) (Result (Unit {0}))
  check_cumulated_transfers [] s = pure (ok tt) s
  check_cumulated_transfers ((erc20_address, value) ∷ transfers) s =
      (ask_recorded (chain.balance_of erc20_address s.safe_contract_address)
            (safe_balance erc20_address)
          >>= λ r. or_return r λ existing_balance. elim (ltb_ℤ existing_balance value) [
            | true ↦ pure (err insufficient_erc20_balance)
            | false ↦ check_cumulated_transfers transfers
          ])
        s

  -- `checkAvailableTokens`
  unfoldable pub check_available_tokens : List Bytes → List ℤ → Run (Client W) (Result (Unit {0}))
  check_available_tokens tokens amounts =
      or_panic (get_cumulated_transfers tokens amounts)
        λ transfers. check_cumulated_transfers transfers

  -- `checkRelayerFundsForFee`
  unfoldable pub check_relayer_funds_for_fee : ℤ → Run (Client W) (Result (Unit {0}))
  check_relayer_funds_for_fee transfer_fee s =
      (ask_recorded (chain.balance_at s.relayer_address) relayer_balance >>= λ r.
      or_return r λ existing_balance. elim (ltb_ℤ existing_balance transfer_fee) [
        | true ↦ pure (err insufficient_balance)
        | false ↦ pure (ok tt)
      ])
        s

  -- `getNonce`
  unfoldable pub get_nonce : Bytes → Run (Client W) (Result ℤ)
  get_nonce from_address = do
    r ← ask chain.block_number
    or_return r λ block_nonce. do
      r ← ask (chain.nonce_at from_address (int64 block_nonce))
      or_return r λ nonce. pure (ok (int64 nonce))

  -- `ExecuteTransfer` from the signatures on.
  unfoldable pub send_transfer : Bytes → TransferBatch → ℤ → ℤ → ℤ → Run (Client W) (Result Bytes)
  send_transfer msg_hash batch quorum nonce gas_price s =
      let gas_limit =
        u64 (
          s.transfer_gas_limit_base
          + u64 (length batch.deposits * s.transfer_gas_limit_for_each)) in
      (or_panic (reduce_signatures (signatures msg_hash s.signature_holder) quorum) λ r.
          or_return r λ sigs. or_panic (extract_list batch.deposits) λ arg_lists. do
            r ← check_available_tokens arg_lists.tokens arg_lists.amounts
            or_return r λ _. do
              r ← check_relayer_funds_for_fee (int64 gas_limit *ℤ gas_price)
              or_return r λ _.
                  let tx : Transaction = record {
                    nonce = nonce;
                    gas_limit = gas_limit;
                    gas_price = gas_price;
                    lists = arg_lists;
                    batch_id = batch.id;
                    signatures = sigs;
                  } in
                  (record_call (transaction_sent tx) >> ask (chain.execute_transfer tx)))
        s

  -- `ExecuteTransfer`
  unfoldable pub execute_transfer : Bytes → Option TransferBatch → ℤ → Run (Client W) (Result Bytes)
  execute_transfer msg_hash none quorum = pure (err nil_batch)
  execute_transfer msg_hash (some batch) quorum = do
    r ← ask_recorded chain.is_paused paused
    or_return r λ is_paused. elim is_paused [
      | true ↦ pure (err multisig_contract_paused)
      | false ↦ λ s.
          (get_nonce s.relayer_address >>= λ r. or_return r λ nonce. do
            r ← ask chain.chain_id
            or_return r λ chain_id. or_return (chain.new_keyed_transactor chain_id) λ _. do
              r ← ask chain.get_current_gas_price
              or_return r λ gas_price. send_transfer msg_hash batch quorum nonce gas_price)
            s
    ]

  -- `IsQuorumReached`; the quorum is an unsigned number of the contract.
  unfoldable pub is_quorum_reached : Bytes → Run (Client W) (Result Bool)
  is_quorum_reached msg_hash s =
      let sigs = signatures msg_hash s.signature_holder in
      (ask chain.quorum >>= λ r. or_return r λ quorum.
          if ltb (u64 quorum) min_quorum_value
          then pure (err invalid_value)
          else pure (ok (leb_ℤ (int64 quorum) (pos (length sigs)))))
        s

  -- `WasExecuted`, `GetTransactionsStatuses`, `GetQuorumSize`
  unfoldable pub was_executed : ℕ → Run (Client W) (Result Bool)
  was_executed batch_id = ask (chain.was_batch_executed batch_id)

  unfoldable pub get_transactions_statuses : ℕ → Run (Client W) (Result Bytes)
  get_transactions_statuses batch_id = ask (chain.get_statuses_after_execution batch_id)

  unfoldable pub get_quorum_size : Run (Client W) (Result ℕ)
  get_quorum_size = ask chain.quorum
