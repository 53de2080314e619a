-- ===== src/Elrond/DataGetter.antt =====
-- clients/elrond/dataGetter.go and clients/elrond/mappers: the queries of the contract on Elrond.
-- The text and the parts of a query response error are left out.
pub mod Statuses
mod Tests
use elrond_eth_bridge.Common.{
  ℕ, ◌==◌, String, Bool, true, false, Option, some, none, List, [], ◌∷◌, Result, ok, err,
  if◌then◌else◌, nil_batch, nil_request, query_response_error, nil_node_status_response,
  unknown_token, no_status_for_batch_id, batch_not_finished, malformed_batch_response,
}
use elrond_eth_bridge.Common.Bytes.{Bytes, bytes_equal}
use elrond_eth_bridge.Common.Int.{int64}
use elrond_eth_bridge.Common.State.{State, give, ◌>>=◌, or_fail}
use elrond_eth_bridge.Batch.{TransferBatch}
use elrond_eth_bridge.Elrond.{Arg, arg_int64, arg_bytes, arg_address}
use elrond_eth_bridge.Elrond.Pending.{parse_uint64_from_byte_slice}
use elrond_eth_bridge.Elrond.Requests.{status_args, deposit_args}

-- What a `VMQueryBuilder` of the SDK holds, beside the two addresses, which are always the same.
pub record VmQuery : Type 0 where
  pub func_name : String
  pub args : List Arg

-- `data.VmValuesResponseData`, without its message.
pub record VmValuesResponse : Type 0 where
  pub return_code : Bytes
  pub return_data : List Bytes

-- The proxy and the builder of the SDK. The shard is asked for the multisig contract, and a node
-- status is its nonce; it may be nil.
pub record Node (E : Type 0) : Type 0 where
  pub to_vm_value_request : VmQuery → Result (Option Bytes)
  pub execute_vm_query : Bytes → E → Result VmValuesResponse × E
  pub get_shard_of_address : E → Result ℕ × E
  pub get_network_status : ℕ → E → Result (Option ℕ) × E

-- `elrondClientDataGetter`, with the world.
pub record DataGetter (E : Type 0) : Type 0 where
  pub relayer_address : Bytes
  pub was_shard_id_fetched : Bool
  pub shard_id : ℕ
  pub world : E

-- "ok"
abbrev pub ok_code_after_execution : Bytes
ok_code_after_execution = 111 ∷ 107 ∷ []

-- `parseBool`: `strconv.ParseBool` of the decimal text of the first byte.
unfoldable pub parse_bool : Bytes → Result Bool
parse_bool [] = ok false
parse_bool (b ∷ _) =
    if b == 0 then ok false else if b == 1 then ok true else err query_response_error

-- `getStatusFromBuff`
unfoldable pub get_status_from_buff : Bytes → Result ℕ
get_status_from_buff [] = err malformed_batch_response
get_status_from_buff (b ∷ []) = ok b
get_status_from_buff (b ∷ c ∷ buff) = get_status_from_buff (c ∷ buff)

abbrev add_status : ℕ → Result Bytes → Result Bytes
add_status stat (ok results) = ok (stat ∷ results)
add_status stat (err e) = err e

-- The loop of `GetTransactionsStatuses`.
unfoldable pub get_statuses : List Bytes → Result Bytes
get_statuses [] = ok []
get_statuses (value ∷ values) = elim (get_status_from_buff value) [
  | err e ↦ err e
  | ok stat ↦ add_status stat (get_statuses values)
]

abbrev not_empty : Bytes → Result Bytes
not_empty [] = err malformed_batch_response
not_empty (stat ∷ results) = ok (stat ∷ results)

abbrev checked : Result Bytes → Result Bytes
checked (err e) = err e
checked (ok results) = not_empty results

-- `GetTransactionsStatuses`, by what the query returned.
unfoldable pub read_statuses : List Bytes → Result Bytes
read_statuses [] = err no_status_for_batch_id
read_statuses (first ∷ values) = elim (parse_bool first) [
  | err e ↦ err e
  | ok is_finished ↦ elim is_finished [
    | false ↦ err batch_not_finished
    | true ↦ checked (get_statuses values)
  ]
]

-- The first value of a response, as a Boolean and as a number; a missing one is false, and 0.
unfoldable pub first_bool : List Bytes → Result Bool
first_bool [] = ok false
first_bool (buff ∷ _) = parse_bool buff

abbrev number_or_error : Result ℕ → Result ℕ
number_or_error (ok n) = ok n
number_or_error (err _) = err query_response_error

unfoldable pub first_uint64 : List Bytes → Result ℕ
first_uint64 [] = ok 0
first_uint64 ([] ∷ _) = ok 0
first_uint64 ((b ∷ buff) ∷ _) = number_or_error (parse_uint64_from_byte_slice (b ∷ buff))

-- `ConvertToken` of both mappers, by what the query returned.
unfoldable pub first_token : List Bytes → Result Bytes
first_token [] = err unknown_token
first_token (token ∷ _) = ok token

-- A query about an action or a batch, with its number first.
abbrev pub about : String → ℕ → List Arg → VmQuery
about func_name id args = record { func_name = func_name; args = arg_int64 (int64 id) ∷ args }

abbrev plain : String → VmQuery
plain func_name = record { func_name = func_name; args = [] }

module _ {E : Type 0} (node : Node E) where
  abbrev pub ask : {A : Type 0} → (E → A × E) → State (DataGetter E) A
  ask f s = ((f s.world).0, record s { world = (f s.world).1 })

  -- `ExecuteQueryReturningBytes`
  unfoldable pub execute_query_returning_bytes :
      Option Bytes → State (DataGetter E) (Result (List Bytes))
  execute_query_returning_bytes none = give (err nil_request)
  execute_query_returning_bytes (some request) = ask (node.execute_vm_query request) >>= λ r.
      or_fail r λ response.
        if bytes_equal response.return_code ok_code_after_execution
        then give (ok response.return_data)
        else give (err query_response_error)

  -- `executeQueryFromBuilder`, `executeQueryBoolFromBuilder` with `ExecuteQueryReturningBool`, and
  -- `executeQueryUint64FromBuilder` with `ExecuteQueryReturningUint64`
  unfoldable pub execute_query_from_builder : VmQuery → State (DataGetter E) (Result (List Bytes))
  execute_query_from_builder query =
      or_fail (node.to_vm_value_request query) λ request. execute_query_returning_bytes request

  unfoldable pub execute_query_bool_from_builder : VmQuery → State (DataGetter E) (Result Bool)
  execute_query_bool_from_builder query =
      execute_query_from_builder query >>= λ r. or_fail r λ response. give (first_bool response)

  unfoldable pub execute_query_uint64_from_builder : VmQuery → State (DataGetter E) (Result ℕ)
  execute_query_uint64_from_builder query =
      execute_query_from_builder query >>= λ r. or_fail r λ response. give (first_uint64 response)

  -- `GetCurrentBatchAsDataBytes`
  unfoldable pub get_current_batch_as_data_bytes : State (DataGetter E) (Result (List Bytes))
  get_current_batch_as_data_bytes = execute_query_from_builder (plain "getCurrentTxBatch")

  -- `GetTokenIdForErc20Address`, `GetERC20AddressForTokenId`
  unfoldable pub get_token_id_for_erc20_address : Bytes → State (DataGetter E) (Result (List Bytes))
  get_token_id_for_erc20_address address =
      execute_query_from_builder
        (record { func_name = "getTokenIdForErc20Address"; args = arg_bytes address ∷ [] })

  unfoldable pub get_erc20_address_for_token_id : Bytes → State (DataGetter E) (Result (List Bytes))
  get_erc20_address_for_token_id token_id =
      execute_query_from_builder
        (record { func_name = "getErc20AddressForTokenId"; args = arg_bytes token_id ∷ [] })

  -- `elrondToErc20.ConvertToken`, `erc20ToElrond.ConvertToken`
  unfoldable pub elrond_to_erc20 : Bytes → State (DataGetter E) (Result Bytes)
  elrond_to_erc20 source_bytes = get_erc20_address_for_token_id source_bytes >>= λ r.
      or_fail r λ response. give (first_token response)

  unfoldable pub erc20_to_elrond : Bytes → State (DataGetter E) (Result Bytes)
  erc20_to_elrond source_bytes = get_token_id_for_erc20_address source_bytes >>= λ r.
      or_fail r λ response. give (first_token response)

  -- `WasProposedTransfer`, `GetActionIDForProposeTransfer`: the deposits are the arguments.
  unfoldable pub was_proposed_transfer : Option TransferBatch → State (DataGetter E) (Result Bool)
  was_proposed_transfer none = give (err nil_batch)
  was_proposed_transfer (some batch) =
      execute_query_bool_from_builder
        (about "wasTransferActionProposed" batch.id (deposit_args batch.deposits))

  unfoldable pub get_action_id_for_propose_transfer :
      Option TransferBatch → State (DataGetter E) (Result ℕ)
  get_action_id_for_propose_transfer none = give (err nil_batch)
  get_action_id_for_propose_transfer (some batch) =
      execute_query_uint64_from_builder
        (about "getActionIdForTransferBatch" batch.id (deposit_args batch.deposits))

  -- `WasProposedSetStatus`, `GetActionIDForSetStatusOnPendingTransfer`: the statuses are.
  unfoldable pub was_proposed_set_status : Option TransferBatch → State (DataGetter E) (Result Bool)
  was_proposed_set_status none = give (err nil_batch)
  was_proposed_set_status (some batch) = execute_query_bool_from_builder (
      about "wasSetCurrentTransactionBatchStatusActionProposed" batch.id
        (status_args batch.statuses))

  unfoldable pub get_action_id_for_set_status_on_pending_transfer :
      Option TransferBatch → State (DataGetter E) (Result ℕ)
  get_action_id_for_set_status_on_pending_transfer none = give (err nil_batch)
  get_action_id_for_set_status_on_pending_transfer (some batch) =
      execute_query_uint64_from_builder (
        about "getActionIdForSetCurrentTransactionBatchStatus" batch.id
          (status_args batch.statuses))

  -- `WasExecuted`, `QuorumReached`, `WasSigned`
  unfoldable pub was_executed : ℕ → State (DataGetter E) (Result Bool)
  was_executed action_id = execute_query_bool_from_builder (about "wasActionExecuted" action_id [])

  unfoldable pub quorum_reached : ℕ → State (DataGetter E) (Result Bool)
  quorum_reached action_id = execute_query_bool_from_builder (about "quorumReached" action_id [])

  unfoldable pub was_signed : ℕ → State (DataGetter E) (Result Bool)
  was_signed action_id s =
      execute_query_bool_from_builder
        (record {
          func_name = "signed";
          args = arg_address s.relayer_address ∷ arg_int64 (int64 action_id) ∷ [];
        })
        s

  -- `GetTransactionsStatuses`
  unfoldable pub get_transactions_statuses : ℕ → State (DataGetter E) (Result Bytes)
  get_transactions_statuses batch_id =
      execute_query_from_builder (about "getStatusesAfterExecution" batch_id []) >>= λ r.
      or_fail r λ values. give (read_statuses values)

  -- `GetLastExecutedEthBatchID`, `GetLastExecutedEthTxID`
  unfoldable pub get_last_executed_eth_batch_id : State (DataGetter E) (Result ℕ)
  get_last_executed_eth_batch_id =
      execute_query_uint64_from_builder (plain "getLastExecutedEthBatchId")

  unfoldable pub get_last_executed_eth_tx_id : State (DataGetter E) (Result ℕ)
  get_last_executed_eth_tx_id = execute_query_uint64_from_builder (plain "getLastExecutedEthTxId")

  -- `GetAllStakedRelayers`, `IsPaused`
  unfoldable pub get_all_staked_relayers : State (DataGetter E) (Result (List Bytes))
  get_all_staked_relayers = execute_query_from_builder (plain "getAllStakedRelayers")

  unfoldable pub is_paused : State (DataGetter E) (Result Bool)
  is_paused = execute_query_bool_from_builder (plain "isPaused")

  -- `getShardID`; on an error the shard is the 0 that came with it.
  abbrev keep_shard : Result ℕ → State (DataGetter E) (Result ℕ)
  keep_shard (err e) s = (err e, record s { shard_id = 0 })
  keep_shard (ok shard) s = (ok shard, record s { shard_id = shard; was_shard_id_fetched = true })

  unfoldable pub get_shard_id : State (DataGetter E) (Result ℕ)
  get_shard_id s = elim s.was_shard_id_fetched [
    | true ↦ (ok s.shard_id, s)
    | false ↦ (ask node.get_shard_of_address >>= keep_shard) s
  ]

  -- `GetCurrentNonce`
  unfoldable pub get_current_nonce : State (DataGetter E) (Result ℕ)
  get_current_nonce = get_shard_id >>= λ r. or_fail r λ shard_id.
      ask (node.get_network_status shard_id) >>= λ r. or_fail r λ node_status. elim node_status [
        | none ↦ give (err nil_node_status_response)
        | some nonce ↦ give (ok nonce)
      ]
