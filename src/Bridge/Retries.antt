-- ===== src/Bridge/Retries.antt =====
-- Steps of bridges/ethElrond/steps that wait by returning themselves, and count their retries in
-- one of the executor's `uint64` counters.
use elrond_eth_bridge.Common.{ℕ, zero, suc, ◌+◌, ◌^◌, ◌≤◌, ◌<◌, ◌≡◌, some, arith}
use elrond_eth_bridge.Bridge.Monad.{Executor, Bridge, M}

module _ {W Step : Type 0} (wait : M W Step) (self : Step) (retries limit : Executor → ℕ) where
  -- So many executions of the step, one after the other, all return the step itself.
  abbrev pub Waits : ℕ → Bridge W → Type 0
  Waits zero s = Unit
  Waits (suc n) s = (t : Bridge W) × (wait s ≡ some (self, t)) × Waits n t

  -- The step returns itself only below its limit, and then counts.
  abbrev pub Counts : Type 0
  Counts =
      (s t : Bridge W)
      → limit s.executor < 2 ^ 64
      → wait s ≡ some (self, t)
      → (retries s.executor < limit s.executor)
        × (retries t.executor ≡ retries s.executor + 1)
        × (limit t.executor ≡ limit s.executor)

  pub Counts-bounded :
      (n : ℕ) (s : Bridge W)
      → Counts
      → limit s.executor < 2 ^ 64
      → Waits (suc n) s
      → retries s.executor + suc n ≤ limit s.executor
  Counts-bounded zero s counts m (t, h, _) = omega (arith, counts s t m h)
  Counts-bounded (suc n) s counts m (t, h, w) =
      let counted = counts s t m h in
      omega (arith, counted, Counts-bounded n t counts (omega (arith, counted)) w)
