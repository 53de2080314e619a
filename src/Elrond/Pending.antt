-- ===== src/Elrond/Pending.antt =====
-- GetPending of clients/elrond/client.go, and how it reads the contract's answer. The cache of
-- converted tokens has the text of a token as its key, which stands for the token's bytes.
pub mod Read
use elrond_eth_bridge.Common.{
  ℕ, ◌+◌, ◌-◌, ◌*◌, ◌%◌, ◌^◌, Bool, true, false, ◌&&◌, ◌||◌, ◌==◌, ltb, if◌then◌else◌, Option, some,
  none, List, [], ◌∷◌, Result, ok, err, length, replicate, invalid_number_of_arguments,
  not_uint64_bytes, no_pending_batch_available,
}
use elrond_eth_bridge.Common.Bytes.{Bytes, bytes_equal}
use elrond_eth_bridge.Common.Int.{pos}
use elrond_eth_bridge.Common.State.{State, give, ◌>>=◌, or_fail}
use elrond_eth_bridge.Batch.{DepositTransfer, TransferBatch}
use elrond_eth_bridge.Ethereum.Batches.{cached_token, add_deposit}
use elrond_eth_bridge.Elrond.{Proxy, Client, ask}

-- `big.Int.SetBytes`: the most significant byte first.
unfoldable pub set_bytes : ℕ → Bytes → ℕ
set_bytes n [] = n
set_bytes n (b ∷ bytes) = set_bytes (n * 256 + b) bytes

-- `parseUInt64FromByteSlice`
unfoldable pub parse_uint64_from_byte_slice : Bytes → Result ℕ
parse_uint64_from_byte_slice bytes =
    let num = set_bytes 0 bytes in if ltb num (2 ^ 64) then ok num else err not_uint64_bytes

-- `emptyResponse`
unfoldable pub empty_response : List Bytes → Bool
empty_response [] = true
empty_response (r ∷ []) = length r == 0
empty_response (r ∷ r' ∷ response) = false

-- The six elements of one transfer in the answer.
pub record TransferFields : Type 0 where
  pub block_nonce : Bytes
  pub nonce : Bytes
  pub from : Bytes
  pub to : Bytes
  pub token : Bytes
  pub amount : Bytes

-- `responseData[i]` to `responseData[i+5]`, for each `i` of the loop.
unfoldable pub fields_of : List Bytes → List TransferFields
fields_of (b ∷ n ∷ f ∷ t ∷ k ∷ a ∷ rest) =
    record { block_nonce = b; nonce = n; from = f; to = t; token = k; amount = a } ∷ fields_of rest
fields_of _ = []

abbrev pub num_fields_for_transaction : ℕ
num_fields_for_transaction = 6

module _ {W : Type 0} (proxy : Proxy W) where
  -- The deposit that the loop builds.
  unfoldable pub deposit_of : ℕ → TransferFields → Bytes → DepositTransfer
  deposit_of nonce f converted = record {
    nonce = nonce;
    to_bytes = f.to;
    displayable_to = proxy.to_hex_string_with_prefix f.to;
    from_bytes = f.from;
    displayable_from = proxy.to_bech32_string f.from;
    token_bytes = f.token;
    converted_token_bytes = converted;
    displayable_token = proxy.text f.token;
    amount = some (pos (set_bytes 0 f.amount));
  }

  -- The loop of `createPendingBatchFromResponse`.
  unfoldable pub create_deposits :
      List TransferFields → List (Bytes × Bytes) → State (Client W) (Result (List DepositTransfer))
  create_deposits [] cached s = (ok [], s)
  create_deposits (f ∷ fields) cached s = elim (parse_uint64_from_byte_slice f.nonce) [
    | err e ↦ (err e, s)
    | ok nonce ↦ elim (cached_token f.token cached) [
      | some converted ↦
          (create_deposits fields cached >>= λ rest.
          give (add_deposit (deposit_of nonce f converted) rest))
            s
      | none ↦
          (ask (proxy.convert_token f.token) >>= λ r. or_fail r λ converted.
              create_deposits fields ((f.token, converted) ∷ cached) >>= λ rest.
              give (add_deposit (deposit_of nonce f converted) rest))
            s
    ]
  ]

  -- The batch, from its deposits.
  abbrev pub pending_batch : ℕ → List DepositTransfer → State (Client W) (Result TransferBatch)
  pending_batch id deposits =
      give (ok (record { id = id; deposits = deposits; statuses = replicate (length deposits) 0 }))

  -- `createPendingBatchFromResponse`
  unfoldable pub create_pending_batch_from_response :
      List Bytes → State (Client W) (Result TransferBatch)
  create_pending_batch_from_response [] = give (err invalid_number_of_arguments)
  create_pending_batch_from_response (id ∷ rest) =
      if length rest % num_fields_for_transaction == 0 && ltb 0 (length rest)
      then (or_fail (parse_uint64_from_byte_slice id) λ batch_id.
          create_deposits (fields_of rest) [] >>= λ r. or_fail r (pending_batch batch_id))
      else give (err invalid_number_of_arguments)

  -- `GetPending`
  unfoldable pub get_pending : State (Client W) (Result TransferBatch)
  get_pending = ask proxy.get_current_batch_as_data_bytes >>= λ r. or_fail r λ response_data.
      if empty_response response_data
      then give (err no_pending_batch_available)
      else create_pending_batch_from_response response_data
