-- ===== src/ElrondToEth/Statuses.antt =====
-- The statuses that resolveSetStatusStep (steps/elrondToEth) stores.
use mathlib.Core.Path.{subst₂}
use elrond_eth_bridge.Common.{
  ℕ, ◌≡◌, ◌≢◌, ◌⊎◌, inl, inr, refl, ap, ◌∙◌, Option, some, List, [], ◌∷◌, length, arith,
}
use elrond_eth_bridge.Batch.{Bytes, TransferBatch, resolve_new_deposits}
use elrond_eth_bridge.Batch.Resolve.{resolved, resolve_new_deposits_lem}
use elrond_eth_bridge.Bridge.Clients.{Environment}
use elrond_eth_bridge.Bridge.Monad.{Executor, Call, Bridge, Returns, Returns->>=}
use elrond_eth_bridge.Bridge.Executor.{
  wait_and_return_final_batch_statuses, resolve_new_deposits_statuses,
}
use elrond_eth_bridge.Bridge.Executor.Waits.{IsAnswer, Answers, wait_for_statuses-Answers}
use elrond_eth_bridge.ElrondToEth.{
  Step, getting_pending_batch_from_elrond, proposing_set_status_on_elrond, store_statuses,
  resolve_statuses,
}

abbrev batch_of : Executor → Option TransferBatch
batch_of e = e.batch

module _ {W : Type 0} (env : Environment W) where
  -- What the end of the step leaves, from an executor with the stored batch `b`: either it goes on
  -- and has stored statuses, or it starts over and has changed nothing.
  abbrev pub Stores : TransferBatch → ℕ → Executor → List Call → Step → Bridge W → Type 0
  Stores b n e cs next t =
      (((next ≡ proposing_set_status_on_elrond)
          × ((statuses : Bytes) × (statuses ≢ [])
              × IsAnswer env b.id statuses
              × (t.executor
                  ≡ record e { batch = some (record b { statuses = resolved n statuses }) })))
        ⊎ ((next ≡ getting_pending_batch_from_elrond) × (t.executor ≡ e)))
      × (t.calls ≡ cs)

  store_statuses_lem :
      (x : ℕ) (xs : Bytes) (b : TransferBatch) (n : ℕ) (s : Bridge W)
      → s.executor.batch ≡ some b
      → store_statuses env (x ∷ xs) n s
        ≡ some (
          proposing_set_status_on_elrond,
          record s {
            executor = record s.executor {
              batch = some (resolve_new_deposits n (record b { statuses = x ∷ xs }));
            };
          },
        )
  unfolding store_statuses resolve_new_deposits_statuses
  store_statuses_lem x xs b n s e = ground arith

  store_statuses-Stores :
      (statuses : Bytes) (b : TransferBatch) (n : ℕ) (s : Bridge W)
      → s.executor.batch ≡ some b
      → (statuses ≡ []) ⊎ IsAnswer env b.id statuses
      → Returns (Stores b n s.executor s.calls) (store_statuses env statuses n s)
  unfolding store_statuses
  store_statuses-Stores [] b n s e answer = (inr (refl, refl), refl)
  store_statuses-Stores (x ∷ xs) b n s e (inl nothing) = absurd (cc (nothing))
  store_statuses-Stores (x ∷ xs) b n s e (inr answer) = rw (store_statuses_lem x xs b n s e) (
    inl (
      refl,
      (x ∷ xs, (λ h. cc), answer, rw (resolve_new_deposits_lem n (record b { statuses = x ∷ xs }))),
    ),
    refl,
  )

  -- With the number of statuses of a fetched batch, the step waits for the statuses from Ethereum.
  -- If it goes on to propose them, the stored batch, with its ID and its deposits, has got a
  -- non-empty list of statuses that Ethereum answered, in some state of the world, to the question
  -- for the statuses of that ID, as `ResolveNewDeposits` leaves it (from that number on every status
  -- is `Rejected`, and the list is padded up to that number), and nothing else of the executor has
  -- changed; if not, it starts over and the executor is as before. In both cases
  -- it sends no request.
  pub resolve_statuses-Stores :
      (fetched b : TransferBatch) (s : Bridge W)
      → s.executor.batch ≡ some b
      → Returns
          (Stores b (length fetched.statuses) s.executor s.calls)
          (resolve_statuses env fetched s)
  unfolding resolve_statuses
  resolve_statuses-Stores fetched b s e =
      Returns->>= (Answers env b.id s) (Stores b (length fetched.statuses) s.executor s.calls)
        (wait_and_return_final_batch_statuses env) _ s (wait_for_statuses-Answers env b s e)
        λ statuses t (answer, k).
          subst₂
            (λ x cs.
              Returns (Stores b (length fetched.statuses) x cs)
                (store_statuses env statuses (length fetched.statuses) t))
            k.0 k.1
            (store_statuses-Stores statuses b (length fetched.statuses) t (ap batch_of k.0 ∙ e)
              answer)
