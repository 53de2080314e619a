-- ===== src/Ethereum/Batches.antt =====
-- GetBatch of clients/ethereum/client.go. The cache of converted tokens has the hexadecimal text of
-- a token as its key, which stands for the token's bytes.
pub mod Fetched
use elrond_eth_bridge.Common.{
  ℕ, u64, ◌==◌, Option, some, none, List, [], ◌∷◌, Result, ok, err, length, replicate,
  if◌then◌else◌, deposits_and_batch_deposits_count_differ,
}
use elrond_eth_bridge.Common.Bytes.{Bytes, bytes_equal}
use elrond_eth_bridge.Common.State.{State, give, ◌>>=◌, or_fail}
use elrond_eth_bridge.Batch.{DepositTransfer, TransferBatch}
use elrond_eth_bridge.Ethereum.{ContractBatch, ContractDeposit, Chain, Client}

-- `cachedTokens[token]`
unfoldable pub cached_token : Bytes → List (Bytes × Bytes) → Option Bytes
cached_token token [] = none
cached_token token ((t, converted) ∷ cached) =
    if bytes_equal t token then some converted else cached_token token cached

abbrev pub add_deposit :
    DepositTransfer → Result (List DepositTransfer) → Result (List DepositTransfer)
add_deposit dt (ok deposits) = ok (dt ∷ deposits)
add_deposit dt (err e) = err e

module _ {W : Type 0} (chain : Chain W) where
  abbrev pub question : {A : Type 0} → (W → A × W) → State (Client W) A
  question f s = ((f s.world).0, record s { world = (f s.world).1 })

  -- The deposit that the loop builds, with its converted token.
  unfoldable pub deposit_transfer : ContractDeposit → Bytes → DepositTransfer
  deposit_transfer deposit converted = record {
    nonce = u64 deposit.nonce;
    to_bytes = deposit.recipient;
    displayable_to = chain.to_bech32_string deposit.recipient;
    from_bytes = deposit.depositor;
    displayable_from = chain.to_hex_string deposit.depositor;
    token_bytes = deposit.token_address;
    converted_token_bytes = converted;
    displayable_token = chain.to_hex_string deposit.token_address;
    amount = some deposit.amount;
  }

  -- The loop of `GetBatch`.
  unfoldable pub convert_deposits :
      List ContractDeposit → List (Bytes × Bytes) → State (Client W) (Result (List DepositTransfer))
  convert_deposits [] cached s = (ok [], s)
  convert_deposits (deposit ∷ deposits) cached s =
      elim (cached_token deposit.token_address cached) [
        | some converted ↦
            (convert_deposits deposits cached >>= λ rest.
            give (add_deposit (deposit_transfer deposit converted) rest))
              s
        | none ↦
            (question (chain.convert_token deposit.token_address) >>= λ r. or_fail r λ converted.
                convert_deposits deposits ((deposit.token_address, converted) ∷ cached) >>= λ rest.
                give (add_deposit (deposit_transfer deposit converted) rest))
              s
      ]

  -- The batch that `GetBatch` returns, from the converted deposits.
  abbrev pub transfer_batch :
      ContractBatch → List DepositTransfer → State (Client W) (Result TransferBatch)
  transfer_batch batch transfers = give (
      ok (record {
        id = u64 batch.nonce;
        deposits = transfers;
        statuses = replicate (length transfers) 0;
      }))

  -- `GetBatch` from the comparison of the numbers of deposits on.
  unfoldable pub create_batch :
      ContractBatch → List ContractDeposit → State (Client W) (Result TransferBatch)
  create_batch batch deposits =
      if batch.deposits_count == length deposits
      then (convert_deposits deposits [] >>= λ r.
          or_fail r λ transfers. transfer_batch batch transfers)
      else give (err deposits_and_batch_deposits_count_differ)

  -- `GetBatch`
  unfoldable pub get_batch : ℕ → State (Client W) (Result TransferBatch)
  get_batch nonce = question (chain.get_batch nonce) >>= λ r. or_fail r λ batch.
      question (chain.get_batch_deposits nonce) >>= λ r.
      or_fail r λ deposits. create_batch batch deposits
