-- ===== src/Ethereum/Wrappers/Tests.antt =====
-- ERC20 contracts whose bound instance is the address, on a chain that counts its questions. The
-- empty address has no contract.
use elrond_eth_bridge.Common.{
  ℕ, ◌+◌, ◌≡◌, refl, false, arith, List, [], ◌∷◌, Result, ok, err, unknown_token, length,
}
use elrond_eth_bridge.Common.Bytes.{Bytes}
use elrond_eth_bridge.Common.Int.{pos}
use elrond_eth_bridge.Common.Maps.{lookup}
use elrond_eth_bridge.Ethereum.Example.{chain}
use elrond_eth_bridge.Ethereum.Wrappers.{Contracts, ContractsHolder, block_number, is_paused}
use elrond_eth_bridge.Ethereum.Wrappers.Cached.{IsBound, AsksThrough, asked-AsksThrough}

abbrev bind : Bytes → Result Bytes
bind [] = err unknown_token
bind (x ∷ token) = ok (x ∷ token)

abbrev contracts : Contracts Bytes ℕ
contracts = record {
  get_batch = chain.get_batch;
  get_batch_deposits = chain.get_batch_deposits;
  get_relayers = λ w. (ok ((60 ∷ []) ∷ []), w);
  was_batch_executed = chain.was_batch_executed;
  chain_id = chain.chain_id;
  block_number = chain.block_number;
  nonce_at = chain.nonce_at;
  execute_transfer = chain.execute_transfer;
  quorum = chain.quorum;
  get_statuses_after_execution = chain.get_statuses_after_execution;
  balance_at = chain.balance_at;
  paused = chain.is_paused;
  new_generic_erc20 = bind;
  balance_of = λ token account w. (ok (pos (w + length token)), w);
  add_int_metric = λ metric delta w. w + 1;
  set_int_metric = λ metric value w. w + 10;
}

-- The number of the block is noted as well, and a question whether the contract is paused is not
-- counted.
asks_block : block_number contracts 3 ≡ (ok 900, 14)
unfolding block_number
asks_block = refl

asks_paused : is_paused contracts 3 ≡ (ok false, 3)
unfolding is_paused
asks_paused = refl

abbrev new_holder : ContractsHolder Bytes ℕ
new_holder = record { contracts = []; world = 0 }

abbrev questions : List (Bytes × Bytes)
questions = (7 ∷ [], 1 ∷ []) ∷ ([], 1 ∷ []) ∷ (7 ∷ [], 2 ∷ []) ∷ []

new_holder-IsBound : IsBound contracts new_holder.contracts
unfolding lookup
new_holder-IsBound token contract kept = ground arith

asked-AsksThrough_example : AsksThrough contracts questions new_holder
asked-AsksThrough_example = asked-AsksThrough contracts questions new_holder new_holder-IsBound
