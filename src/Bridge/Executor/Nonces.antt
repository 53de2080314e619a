-- ===== src/Bridge/Executor/Nonces.antt =====
-- verifyDepositNonces of bridges/ethElrond/bridgeExecutor.go.
use elrond_eth_bridge.Common.{
  ℕ, zero, suc, ◌+◌, ◌≡◌, ◌↔◌, refl, some, List, [], ◌∷◌, ok, arith, get_elem?, u64,
}
use elrond_eth_bridge.Batch.{DepositTransfer}
use elrond_eth_bridge.Bridge.Executor.{verify_deposit_nonces_from, verify_deposit_nonces}

-- The deposits' nonces count up, by wrapping `uint64` steps, from the given one.
abbrev pub CountsFrom : ℕ → List DepositTransfer → Type 0
CountsFrom start deposits =
    (i : ℕ) (dt : DepositTransfer) → get_elem? deposits i ≡ some dt → dt.nonce ≡ u64 (start + i)

verify_from_sound :
    (start : ℕ) (ds : List DepositTransfer)
    → u64 start ≡ start
    → verify_deposit_nonces_from start ds ≡ ok tt
    → CountsFrom start ds
unfolding verify_deposit_nonces_from
verify_from_sound start [] r h i dt e = absurd (ground arith)
verify_from_sound start (d ∷ ds) r h zero dt e = ground arith
verify_from_sound start (d ∷ ds) r h (suc i) dt e =
    let ih = verify_from_sound (u64 (start + 1)) ds (omega arith) (ground arith) i dt e in
    omega (arith, ih)

verify_from_complete :
    (start : ℕ) (ds : List DepositTransfer)
    → u64 start ≡ start
    → CountsFrom start ds
    → verify_deposit_nonces_from start ds ≡ ok tt
unfolding verify_deposit_nonces_from
verify_from_complete start [] r h = refl
verify_from_complete start (d ∷ ds) r h = ground (
  arith,
  h 0 d refl,
  verify_from_complete (u64 (start + 1)) ds (omega arith) (λ i dt e. omega (arith, h (suc i) dt e)),
)

-- The check of a batch's deposits passes exactly when the i-th deposit, counted from 0, has the
-- nonce `lastNonce + 1 + i`, in `uint64` arithmetic.
pub verify_deposit_nonces_iff :
    (last_nonce : ℕ) (ds : List DepositTransfer)
    → (verify_deposit_nonces last_nonce ds ≡ ok tt) ↔ (
        (i : ℕ) (dt : DepositTransfer)
        → get_elem? ds i ≡ some dt
        → dt.nonce ≡ u64 (last_nonce + 1 + i))
unfolding verify_deposit_nonces
verify_deposit_nonces_iff last_nonce ds = (
  λ h i dt e. omega (arith, verify_from_sound (u64 (last_nonce + 1)) ds (omega arith) h i dt e),
  λ h.
      verify_from_complete (u64 (last_nonce + 1)) ds (omega arith)
        (λ i dt e. omega (arith, h i dt e)),
)
