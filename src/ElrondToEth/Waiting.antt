-- ===== src/ElrondToEth/Waiting.antt =====
-- The bounds on the rounds for which three steps of steps/elrondToEth wait:
-- waitForQuorumOnTransferStep, proposeSetStatusStep and waitForQuorumOnSetStatusStep.
use elrond_eth_bridge.Common.{ℕ, suc, ◌+◌, ◌^◌, ◌≤◌, ◌<◌, arith}
use elrond_eth_bridge.Bridge.Clients.{Environment}
use elrond_eth_bridge.Bridge.Monad.{Executor, Bridge}
use elrond_eth_bridge.Bridge.Executor.{
  print_info, my_turn_as_leader, get_stored_batch, process_quorum_reached_on_ethereum,
  process_max_quorum_retries_on_ethereum, process_quorum_reached_on_elrond,
  process_max_quorum_retries_on_elrond, process_max_retries_on_was_transfer_proposed_on_elrond,
  was_set_status_proposed_on_elrond, propose_set_status_on_elrond,
}
use elrond_eth_bridge.Bridge.Retries.{Waits, Counts, Counts-bounded}
use elrond_eth_bridge.ElrondToEth.{
  waiting_for_quorum_on_transfer, proposing_set_status_on_elrond, waiting_for_quorum_on_set_status,
  wait_for_quorum_on_transfer, propose_set_status, wait_for_quorum_on_set_status,
}

abbrev pub transfer_retries : Executor → ℕ
transfer_retries e = e.quorum_retries_on_ethereum

abbrev pub transfer_limit : Executor → ℕ
transfer_limit e = e.max_quorum_retries_on_ethereum

abbrev pub proposed_retries : Executor → ℕ
proposed_retries e = e.retries_on_was_proposed

abbrev pub proposed_limit : Executor → ℕ
proposed_limit e = e.max_retries_on_was_proposed

abbrev pub status_retries : Executor → ℕ
status_retries e = e.quorum_retries_on_elrond

abbrev pub status_limit : Executor → ℕ
status_limit e = e.max_quorum_retries_on_elrond

module _ {W : Type 0} (env : Environment W) where
  wait_on_transfer-Counts :
      Counts
        (wait_for_quorum_on_transfer env)
        waiting_for_quorum_on_transfer
        transfer_retries
        transfer_limit
  unfolding wait_for_quorum_on_transfer process_max_quorum_retries_on_ethereum
      process_quorum_reached_on_ethereum print_info
  wait_on_transfer-Counts s t m h = ground arith

  propose_set_status-Counts :
      Counts (propose_set_status env) proposing_set_status_on_elrond proposed_retries proposed_limit
  unfolding propose_set_status get_stored_batch
      process_max_retries_on_was_transfer_proposed_on_elrond was_set_status_proposed_on_elrond
      my_turn_as_leader propose_set_status_on_elrond print_info
  propose_set_status-Counts s t m h = ground arith

  wait_on_set_status-Counts :
      Counts
        (wait_for_quorum_on_set_status env)
        waiting_for_quorum_on_set_status
        status_retries
        status_limit
  unfolding wait_for_quorum_on_set_status process_max_quorum_retries_on_elrond
      process_quorum_reached_on_elrond print_info
  wait_on_set_status-Counts s t m h = ground arith

  -- The wait for the quorum on a transfer returns itself at most as often in a row as its maximum of
  -- retries, a `uint64`, exceeds the count of retries so far: after that it leaves for another step.
  pub transfer_wait_bounded :
      (n : ℕ) (s : Bridge W)
      → s.executor.max_quorum_retries_on_ethereum < 2 ^ 64
      → Waits
          (wait_for_quorum_on_transfer env)
          waiting_for_quorum_on_transfer
          transfer_retries
          transfer_limit
          (suc n)
          s
      → s.executor.quorum_retries_on_ethereum + suc n ≤ s.executor.max_quorum_retries_on_ethereum
  transfer_wait_bounded n s m w =
      Counts-bounded (wait_for_quorum_on_transfer env) waiting_for_quorum_on_transfer
        transfer_retries transfer_limit n s wait_on_transfer-Counts m w

  -- A relayer that is not the leader waits for the proposal of the statuses at most as often in a row
  -- as its maximum of retries, a `uint64`, exceeds the count of retries so far: after that the step
  -- leaves for another step.
  pub proposal_wait_bounded :
      (n : ℕ) (s : Bridge W)
      → s.executor.max_retries_on_was_proposed < 2 ^ 64
      → Waits
          (propose_set_status env)
          proposing_set_status_on_elrond
          proposed_retries
          proposed_limit
          (suc n)
          s
      → s.executor.retries_on_was_proposed + suc n ≤ s.executor.max_retries_on_was_proposed
  proposal_wait_bounded n s m w =
      Counts-bounded (propose_set_status env) proposing_set_status_on_elrond proposed_retries
        proposed_limit n s propose_set_status-Counts m w

  -- The wait for the quorum on the statuses returns itself at most as often in a row as its maximum
  -- of retries, a `uint64`, exceeds the count of retries so far: after that it leaves for another
  -- step.
  pub status_wait_bounded :
      (n : ℕ) (s : Bridge W)
      → s.executor.max_quorum_retries_on_elrond < 2 ^ 64
      → Waits
          (wait_for_quorum_on_set_status env)
          waiting_for_quorum_on_set_status
          status_retries
          status_limit
          (suc n)
          s
      → s.executor.quorum_retries_on_elrond + suc n ≤ s.executor.max_quorum_retries_on_elrond
  status_wait_bounded n s m w =
      Counts-bounded (wait_for_quorum_on_set_status env) waiting_for_quorum_on_set_status
        status_retries status_limit n s wait_on_set_status-Counts m w
