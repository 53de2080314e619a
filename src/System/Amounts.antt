-- ===== src/System/Amounts.antt =====
-- No batch that the two clients build has a nil amount (clients/elrond/client.go,
-- clients/ethereum/client.go).
use elrond_eth_bridge.Common.{
  ℕ, ◌≡◌, refl, some, List, [], ◌∷◌, Result, ok, err, Option-cases, Result-cases, inl, inr, arith,
}
use elrond_eth_bridge.Common.Bytes.{Bytes}
use elrond_eth_bridge.Common.Int.{ℤ}
use elrond_eth_bridge.Batch.{DepositTransfer, TransferBatch}
use elrond_eth_bridge.Ethereum.{ContractDeposit, ArgListsBatch, Chain}
use elrond_eth_bridge.Ethereum
use elrond_eth_bridge.Ethereum.Batches.{
  cached_token, deposit_transfer, convert_deposits, create_batch, get_batch,
}
use elrond_eth_bridge.Ethereum.Transfer.{extract_list, generate_message_hash}
use elrond_eth_bridge.Elrond.{Proxy}
use elrond_eth_bridge.Elrond
use elrond_eth_bridge.Elrond.Pending.{
  TransferFields, fields_of, deposit_of, create_deposits, create_pending_batch_from_response,
  parse_uint64_from_byte_slice,
}

abbrev pub HasAmounts : List DepositTransfer → Type 0
HasAmounts [] = Unit
HasAmounts (dt ∷ deposits) = ((amount : ℤ) × (dt.amount ≡ some amount)) × HasAmounts deposits

abbrev DepositsHave : Result (List DepositTransfer) → Type 0
DepositsHave (ok deposits) = HasAmounts deposits
DepositsHave (err e) = Unit

abbrev pub BatchHas : Result TransferBatch → Type 0
BatchHas (ok b) = HasAmounts b.deposits
BatchHas (err e) = Unit

pub extract_list-some :
    {W : Type 0} (chain : Chain W) (deposits : List DepositTransfer)
    → HasAmounts deposits
    → (lists : ArgListsBatch) × (extract_list chain deposits ≡ some lists)
unfolding extract_list
extract_list-some chain [] h = (_, refl)
extract_list-some chain (dt ∷ deposits) ((amount, is), h) =
    let (lists, extracted) = extract_list-some chain deposits h in
    let all : ArgListsBatch = record {
      tokens = chain.bytes_to_address dt.converted_token_bytes ∷ lists.tokens;
      recipients = chain.bytes_to_address dt.to_bytes ∷ lists.recipients;
      amounts = amount ∷ lists.amounts;
      nonces = dt.nonce ∷ lists.nonces;
    } in
    (all, ground (arith, is, extracted))

-- The hash of a batch none of whose amounts is nil is generated without a panic.
pub generate_message_hash-some :
    {W : Type 0} (chain : Chain W) (b : TransferBatch)
    → HasAmounts b.deposits
    → (r : Result Bytes) × (generate_message_hash chain (some b) ≡ some r)
unfolding generate_message_hash
generate_message_hash-some chain b h =
    let (lists, extracted) = extract_list-some chain b.deposits h in
    elim (Option-cases (generate_message_hash chain (some b))) [
      | inr (r, is) ↦ (r, is)
      | inl panics ↦
          absurd (ground (arith, extracted, panics, Result-cases (chain.pack lists b.id)))
    ]

module _ {W : Type 0} (chain : Chain W) where
  convert_deposits-HasAmounts :
      (deposits : List ContractDeposit) (cached : List (Bytes × Bytes)) (s : Ethereum.Client W)
      → DepositsHave (convert_deposits chain deposits cached s).0
  unfolding convert_deposits deposit_transfer
  convert_deposits-HasAmounts [] cached s = tt
  convert_deposits-HasAmounts (deposit ∷ deposits) cached s = grind (
    arith,
    Option-cases (cached_token deposit.token_address cached),
    λ (cached' : List (Bytes × Bytes)) (t : Ethereum.Client W).
        convert_deposits-HasAmounts deposits cached' t,
  )

  pub get_batch-HasAmounts :
      (nonce : ℕ) (s : Ethereum.Client W) → BatchHas (get_batch chain nonce s).0
  unfolding get_batch create_batch
  get_batch-HasAmounts nonce s = grind (
    arith,
    λ (deposits : List ContractDeposit) (t : Ethereum.Client W).
        convert_deposits-HasAmounts deposits [] t,
  )

module _ {W : Type 0} (proxy : Proxy W) where
  create_deposits-HasAmounts :
      (fields : List TransferFields) (cached : List (Bytes × Bytes)) (s : Elrond.Client W)
      → DepositsHave (create_deposits proxy fields cached s).0
  unfolding create_deposits deposit_of
  create_deposits-HasAmounts [] cached s = tt
  create_deposits-HasAmounts (f ∷ fields) cached s = grind (
    arith,
    Option-cases (cached_token f.token cached),
    Result-cases (parse_uint64_from_byte_slice f.nonce),
    λ (cached' : List (Bytes × Bytes)) (t : Elrond.Client W).
        create_deposits-HasAmounts fields cached' t,
  )

  pub get_pending-HasAmounts :
      (s : Elrond.Client W) → BatchHas (Elrond.Pending.get_pending proxy s).0
  unfolding Elrond.Pending.get_pending create_pending_batch_from_response
  get_pending-HasAmounts s = grind (
    arith,
    λ (response : List Bytes) (t : Elrond.Client W).
        create_deposits-HasAmounts (fields_of response) [] t,
  )
