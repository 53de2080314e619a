-- ===== src/EthToElrond/Waiting.antt =====
-- The bound on the rounds for which waitForQuorumStep (steps/ethToElrond) waits.
use elrond_eth_bridge.Common.{ℕ, suc, ◌+◌, ◌^◌, ◌≤◌, ◌<◌, arith}
use elrond_eth_bridge.Bridge.Clients.{Environment}
use elrond_eth_bridge.Bridge.Monad.{Executor, Bridge}
use elrond_eth_bridge.Bridge.Executor.{
  print_info, process_quorum_reached_on_elrond, process_max_quorum_retries_on_elrond,
}
use elrond_eth_bridge.Bridge.Retries.{Waits, Counts, Counts-bounded}
use elrond_eth_bridge.EthToElrond.{waiting_for_quorum, wait_for_quorum}

abbrev pub retries : Executor → ℕ
retries e = e.quorum_retries_on_elrond

abbrev pub limit : Executor → ℕ
limit e = e.max_quorum_retries_on_elrond

module _ {W : Type 0} (env : Environment W) where
  wait_for_quorum-Counts : Counts (wait_for_quorum env) waiting_for_quorum retries limit
  unfolding wait_for_quorum process_max_quorum_retries_on_elrond process_quorum_reached_on_elrond
      print_info
  wait_for_quorum-Counts s t m h = ground arith

  -- The step returns itself at most as often in a row as the maximum of quorum retries, a `uint64`,
  -- exceeds the count of retries so far: after that it leaves for another step.
  pub eth_quorum_wait_bounded :
      (n : ℕ) (s : Bridge W)
      → s.executor.max_quorum_retries_on_elrond < 2 ^ 64
      → Waits (wait_for_quorum env) waiting_for_quorum retries limit (suc n) s
      → s.executor.quorum_retries_on_elrond + suc n ≤ s.executor.max_quorum_retries_on_elrond
  eth_quorum_wait_bounded n s m w =
      Counts-bounded (wait_for_quorum env) waiting_for_quorum retries limit n s
        wait_for_quorum-Counts m w
