-- ===== src/Bridge/Executor/Waits.antt =====
-- The waiting loops of bridges/ethElrond/bridgeExecutor.go: WaitForTransferConfirmation and
-- WaitAndReturnFinalBatchStatuses.
use elrond_eth_bridge.Common.{
  ℕ, zero, suc, ◌≡◌, refl, ◌∙◌, Bool, true, false, Option, none, some, ◌∷◌, [], ◌⊎◌, ap, Result, ok,
  err, Error, inl, inr, Option-cases, Bool-cases, Result-cases, arith,
}
use elrond_eth_bridge.Batch.{Bytes, TransferBatch}
use elrond_eth_bridge.Bridge.Clients.{Environment}
use elrond_eth_bridge.Bridge.Monad.{
  Executor, Bridge, was_transfer_executed, M, pure, Returns, Returns->>=,
}
use elrond_eth_bridge.Bridge.Executor.{
  splits, was_transfer_performed_on_ethereum, wait_for_transfer_confirmation_from,
  wait_for_transfer_confirmation, wait_round, status_round, get_batch_statuses_from_ethereum,
  wait_and_return_final_batch_statuses_from, wait_and_return_final_batch_statuses,
}

module _ {W : Type 0} (env : Environment W) where
  -- A property that neither the passing of time nor an answer of Ethereum breaks.
  pub record IsSteady (P : Bridge W → Type 0) : Type 0 where
    pub over_time : (s : Bridge W) (w : W) → P s → P (record s { world = w })
    pub answered :
        (s : Bridge W) (b : TransferBatch) (a : Bool)
        → s.executor.batch ≡ some b
        → P s
        → P (record s { calls = was_transfer_executed b.id a ∷ s.calls })

  wait_round-steady :
      (P : Bridge W → Type 0) (s : Bridge W)
      → IsSteady P
      → P s
      → Returns (λ _ t. P t) (wait_round env s)
  unfolding wait_round was_transfer_performed_on_ethereum
  wait_round-steady P s steady h =
      let w1 = (env.wait s.world).1 in
      let h1 = steady.over_time s w1 h in
      elim (Option-cases s.executor.batch) [
        | inl nothing ↦ ground (arith, h1)
        | inr (b, e) ↦
            let w2 = (env.ethereum_client.was_executed b.id w1).1 in
            let s2 : Bridge W = record s { world = w2 } in
            let h2 : P s2 = steady.over_time s w2 h in
            ground (arith, h1, h2, steady.answered s2 b true e h2, steady.answered s2 b false e h2)
      ]

  -- Of the questions that `WaitForTransferConfirmation` asks, none breaks a steady property.
  confirmation_from-steady :
      (P : Bridge W → Type 0) (n : ℕ) (p : Bool) (s : Bridge W)
      → IsSteady P
      → P s
      → Returns (λ _ t. P t) (wait_for_transfer_confirmation_from env n p s)
  unfolding wait_for_transfer_confirmation_from
  confirmation_from-steady P zero p s steady h = h
  confirmation_from-steady P (suc n) true s steady h = h
  confirmation_from-steady P (suc n) false s steady h =
      Returns->>= (λ _ t. P t) (λ _ t. P t) (wait_round env)
        (λ p. wait_for_transfer_confirmation_from env n p) s (wait_round-steady P s steady h)
        λ p t k. confirmation_from-steady P n p t steady k

  -- Nothing but the world moves while the statuses are awaited.
  abbrev pub IsUnmoved : Bridge W → Bridge W → Type 0
  IsUnmoved s t = (t.executor ≡ s.executor) × (t.calls ≡ s.calls)

  -- What Ethereum answered, in some state of the world, to the question for the statuses of a batch.
  abbrev pub IsAnswer : ℕ → Bytes → Type 0
  IsAnswer id statuses =
      (w : W) × ((env.ethereum_client.get_transactions_statuses id w).0 ≡ ok statuses)

  -- Nothing moves but the world, and statuses that are returned are none, or such an answer.
  abbrev pub Answers : ℕ → Bridge W → Bytes → Bridge W → Type 0
  Answers id s statuses t = ((statuses ≡ []) ⊎ IsAnswer id statuses) × IsUnmoved s t

  RoundAnswers : ℕ → Bridge W → Option Bytes → Bridge W → Type 0
  RoundAnswers id s none t = IsUnmoved s t
  RoundAnswers id s (some statuses) t = Answers id s statuses t

  abbrev final_statuses : Bytes → Option Bytes
  final_statuses [] = none
  final_statuses (x ∷ xs) = some (x ∷ xs)

  answered_round :
      (b : TransferBatch) (s : Bridge W) (statuses : Bytes)
      → let (fired, w) = env.wait s.world in
        s.executor.batch ≡ some b
        → fired ≡ true
        → (env.ethereum_client.get_transactions_statuses b.id w).0 ≡ ok statuses
        → status_round env s
          ≡ some (
            final_statuses statuses,
            record s { world = (env.ethereum_client.get_transactions_statuses b.id w).1 },
          )
  unfolding status_round get_batch_statuses_from_ethereum
  answered_round b s [] stored fired answered = ground (arith, stored, fired, answered)
  answered_round b s (x ∷ xs) stored fired answered = ground (arith, stored, fired, answered)

  final-RoundAnswers :
      (id : ℕ) (s t : Bridge W) (statuses : Bytes)
      → IsAnswer id statuses
      → IsUnmoved s t
      → RoundAnswers id s (final_statuses statuses) t
  unfolding RoundAnswers
  final-RoundAnswers id s t [] answer k = k
  final-RoundAnswers id s t (x ∷ xs) answer k = (inr answer, k)

  unanswered_round :
      (b : TransferBatch) (s : Bridge W)
      → ((env.wait s.world).0 ≡ false)
        ⊎ ((e : Error) × ((env.ethereum_client.get_transactions_statuses b.id
                (env.wait s.world).1).0
              ≡ err e))
      → s.executor.batch ≡ some b
      → Returns (RoundAnswers b.id s) (status_round env s)
  unfolding status_round get_batch_statuses_from_ethereum RoundAnswers
  unanswered_round b s (inl stopped) stored = rw stopped (inl refl, (refl, refl))
  unanswered_round b s (inr (e, failed)) stored = ground (arith, failed, stored)

  status_round-RoundAnswers :
      (b : TransferBatch) (s : Bridge W)
      → s.executor.batch ≡ some b
      → Returns (RoundAnswers b.id s) (status_round env s)
  status_round-RoundAnswers b s stored =
      let w : W = (env.wait s.world).1 in
      let r : Result Bytes × W = env.ethereum_client.get_transactions_statuses b.id w in
      elim (Bool-cases (env.wait s.world).0) [
        | inr stopped ↦ unanswered_round b s (inl stopped) stored
        | inl fired ↦ elim (Result-cases r.0) [
          | inr failed ↦ unanswered_round b s (inr failed) stored
          | inl (statuses, answered) ↦ rw (answered_round b s statuses stored fired answered) (
              final-RoundAnswers b.id s (record s { world = r.1 }) statuses (w, answered)
                (refl, refl))
        ]
      ]

  after_round :
      (id : ℕ) (s : Bridge W) (n : ℕ) (r : Option Bytes) (t : Bridge W)
      → RoundAnswers id s r t
      → Returns (Answers id s) (wait_and_return_final_batch_statuses_from env n t)
      → Returns (Answers id s) (
          (elim r as (λ _. M W Bytes) [
            | some statuses ↦ pure statuses
            | none ↦ wait_and_return_final_batch_statuses_from env n
          ])
            t)
  unfolding RoundAnswers
  after_round id s n none t h k = k
  after_round id s n (some statuses) t h k = h

  IsUnmoved-by :
      (id : ℕ) (s : Bridge W) (r : Option Bytes) (t : Bridge W)
      → RoundAnswers id s r t
      → IsUnmoved s t
  unfolding RoundAnswers
  IsUnmoved-by id s none t h = h
  IsUnmoved-by id s (some statuses) t h = h.1

  -- The rest of the loop, from a state in which only the world has moved.
  from_unmoved :
      (id : ℕ) (s t : Bridge W) (o : Option (Bytes × Bridge W))
      → IsUnmoved s t
      → Returns (Answers id t) o
      → Returns (Answers id s) o
  from_unmoved id s t none h k = k
  from_unmoved id s t (some (statuses, u)) h (answer, k) = (answer, (k.0 ∙ h.0, k.1 ∙ h.1))

  statuses_from-Answers :
      (b : TransferBatch) (n : ℕ) (s : Bridge W)
      → s.executor.batch ≡ some b
      → Returns (Answers b.id s) (wait_and_return_final_batch_statuses_from env n s)
  unfolding wait_and_return_final_batch_statuses_from
  statuses_from-Answers b zero s stored = (inl refl, (refl, refl))
  statuses_from-Answers b (suc n) s stored =
      Returns->>= (RoundAnswers b.id s) (Answers b.id s) (status_round env) _ s
        (status_round-RoundAnswers b s stored)
        λ r t k.
          let moved = IsUnmoved-by b.id s r t k in
          let still : t.executor.batch ≡ some b = ap (λ (e : Executor). e.batch) moved.0 ∙ stored in
          after_round b.id s n r t k (
            from_unmoved b.id s t (wait_and_return_final_batch_statuses_from env n t) moved
              (statuses_from-Answers b n t still))

  pub wait_for_transfer_confirmation-steady :
      (P : Bridge W → Type 0) (s : Bridge W)
      → IsSteady P
      → P s
      → Returns (λ _ t. P t) (wait_for_transfer_confirmation env s)
  unfolding wait_for_transfer_confirmation
  wait_for_transfer_confirmation-steady P s steady h =
      confirmation_from-steady P splits false s steady h

  pub wait_for_statuses-Answers :
      (b : TransferBatch) (s : Bridge W)
      → s.executor.batch ≡ some b
      → Returns (Answers b.id s) (wait_and_return_final_batch_statuses env s)
  unfolding wait_and_return_final_batch_statuses
  wait_for_statuses-Answers b s stored = statuses_from-Answers b splits s stored
