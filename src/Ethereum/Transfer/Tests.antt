-- ===== src/Ethereum/Transfer/Tests.antt =====
-- A small chain, and the theorems on the Ethereum client at concrete inputs.
use elrond_eth_bridge.Common.{
  ◌≤◌, ◌≡◌, ◌↔◌, refl, true, false, some, [], ◌∷◌, inl, ok, Elem, length, take, if◌then◌else◌, ltb,
  arith,
}
use elrond_eth_bridge.Common.Bytes.{bytes_equal}
use elrond_eth_bridge.Common.Int.{ℤ, pos, ◌≤ℤ◌}
use elrond_eth_bridge.Common.Panic.{Returns}
use elrond_eth_bridge.Batch.{DepositTransfer, TransferBatch}
use elrond_eth_bridge.Signatures.{signatures}
use elrond_eth_bridge.Ethereum.{
  ArgListsBatch, Transaction, paused, safe_balance, relayer_balance, transaction_sent, available,
  unavailable,
}
use elrond_eth_bridge.Ethereum.Example.{first_deposit, chain, client}
use elrond_eth_bridge.Ethereum.Transfer.{
  add_transfer, cumulate, get_cumulated_transfers, extract_list, check_cumulated_transfers,
  reduce_signatures, check_available_tokens, check_relayer_funds_for_fee, get_nonce, send_transfer,
  execute_transfer, is_quorum_reached,
}
use elrond_eth_bridge.Ethereum.Transfer.Sent.{Executes, execute_transfer-Executes}
use elrond_eth_bridge.Ethereum.Transfer.Cumulated.{sum_of, Covers-sum_of}
use elrond_eth_bridge.Ethereum.Transfer.Quorum.{is_quorum_reached_iff}
use elrond_eth_bridge.Ethereum.Availability.{shown, checks, checks_lem}
use elrond_eth_bridge.Ethereum.Batches.{get_batch}
use elrond_eth_bridge.Ethereum.Batches.Fetched.{Fetches, get_batch-Fetches}

abbrev transfer : DepositTransfer
transfer = record {
  nonce = 4;
  to_bytes = 2 ∷ [];
  displayable_to = "";
  from_bytes = 1 ∷ [];
  displayable_from = "";
  token_bytes = 7 ∷ [];
  converted_token_bytes = 7 ∷ [];
  displayable_token = "";
  amount = some (pos 20);
}

abbrev two_transfers : TransferBatch
two_transfers = record { id = 11; deposits = transfer ∷ transfer ∷ []; statuses = 0 ∷ 0 ∷ [] }

abbrev lists : ArgListsBatch
lists = record {
  tokens = (7 ∷ []) ∷ (7 ∷ []) ∷ [];
  recipients = (2 ∷ []) ∷ (2 ∷ []) ∷ [];
  amounts = pos 20 ∷ pos 20 ∷ [];
  nonces = 4 ∷ 4 ∷ [];
}

abbrev transaction : Transaction
transaction = record {
  nonce = pos 5;
  gas_limit = 200;
  gas_price = pos 3;
  lists = lists;
  batch_id = 11;
  signatures = (1 ∷ []) ∷ (2 ∷ []) ∷ [];
}

executed :
    execute_transfer chain (9 ∷ []) (some two_transfers) (pos 2) client
    ≡ some (
      ok (1 ∷ []),
      record client {
        calls =
            transaction_sent transaction
            ∷ relayer_balance (pos 1000)
            ∷ safe_balance (7 ∷ []) (pos 50)
            ∷ paused false
            ∷ [];
      },
    )
unfolding execute_transfer send_transfer get_nonce reduce_signatures extract_list
    check_available_tokens get_cumulated_transfers cumulate add_transfer check_cumulated_transfers
    check_relayer_funds_for_fee signatures bytes_equal
executed = refl

extracted : extract_list chain two_transfers.deposits ≡ some lists
unfolding extract_list
extracted = refl

execute_transfer-Executes_example :
    Returns
      (Executes chain client (9 ∷ []) two_transfers lists 2)
      (execute_transfer chain (9 ∷ []) (some two_transfers) (pos 2) client)
execute_transfer-Executes_example =
    execute_transfer-Executes chain client (9 ∷ []) two_transfers lists 2 extracted

Covers-sum_of_example :
    (balance : ℤ) × Elem (safe_balance (7 ∷ []) balance) (safe_balance (7 ∷ []) (pos 50) ∷ [])
    × (sum_of (7 ∷ []) ((7 ∷ []) ∷ (7 ∷ []) ∷ []) (pos 20 ∷ pos 20 ∷ []) (pos 0) ≤ℤ balance)
unfolding get_cumulated_transfers cumulate add_transfer bytes_equal
Covers-sum_of_example =
    Covers-sum_of (7 ∷ []) ((7 ∷ []) ∷ (7 ∷ []) ∷ []) (pos 20 ∷ pos 20 ∷ [])
      (safe_balance (7 ∷ []) (pos 50) ∷ []) ((pos 50, inl refl, omega arith), tt) (inl refl)

is_quorum_reached_example :
    let held = signatures (9 ∷ []) client.signature_holder in
    Returns
      (λ r t.
        ((r ≡ ok true) ↔ ((1 ≤ 2) × (2 ≤ length held)))
        × ((r ≡ ok true) ↔ ((1 ≤ 2) × (reduce_signatures held (pos 2) ≡ some (ok (take 2 held)))))
        × (t ≡ record client { world = (chain.quorum client.world).1 }))
      (is_quorum_reached chain (9 ∷ []) client)
is_quorum_reached_example = is_quorum_reached_iff chain (9 ∷ []) 2 client refl (omega arith)

get_batch-Fetches_example :
    Fetches chain
      (ok (record { nonce = 12; deposits_count = 1 }))
      (ok (first_deposit ∷ []))
      (get_batch chain 12 client).0
get_batch-Fetches_example = get_batch-Fetches chain 12 client

checks_example :
    (checks chain 3 client).world
    ≡ shown chain
        (if ltb 1 2 then unavailable else available)
        (if ltb 1 2 then chain.fetched_in_a_row_text 900 2 else "")
        900
        (chain.block_number (checks chain 2 client).world).1
checks_example = checks_lem chain 900 2 client (λ w. refl) (ground arith) (omega arith)
