-- ===== src/Bridge/Executor/Tests.antt =====
-- Methods of bridges/ethElrond/bridgeExecutor.go at a concrete batch.
use elrond_eth_bridge.Common.{ℕ, ◌+◌, ◌≡◌, ◌↔◌, refl, some, [], ◌∷◌, ok, get_elem?, u64}
use elrond_eth_bridge.Batch.{DepositTransfer}
use elrond_eth_bridge.Bridge.Example.{deposit, batch, environment, start}
use elrond_eth_bridge.Bridge.Monad.{Returns}
use elrond_eth_bridge.Bridge.Executor.{
  splits, verify_deposit_nonces, wait_for_transfer_confirmation,
}
use elrond_eth_bridge.Bridge.Executor.Asked.{Waited, wait_for_transfer_confirmation-Waited}
use elrond_eth_bridge.Bridge.Executor.Nonces.{verify_deposit_nonces_iff}

verify_deposit_nonces_iff_example :
    (verify_deposit_nonces 20 (deposit 21 ∷ deposit 22 ∷ []) ≡ ok tt) ↔ (
      (i : ℕ) (dt : DepositTransfer)
      → get_elem? (deposit 21 ∷ deposit 22 ∷ []) i ≡ some dt
      → dt.nonce ≡ u64 (20 + 1 + i))
verify_deposit_nonces_iff_example = verify_deposit_nonces_iff 20 (deposit 21 ∷ deposit 22 ∷ [])

wait_for_transfer_confirmation-Waited_example :
    Returns
      (λ _ t. Waited environment batch.id splits start t)
      (wait_for_transfer_confirmation environment start)
wait_for_transfer_confirmation-Waited_example =
    wait_for_transfer_confirmation-Waited environment batch start refl
