-- ===== src/Bridge/Executor/Create.antt =====
-- NewBridgeExecutor of bridges/ethElrond/bridgeExecutor.go, but for its nil checks.
use elrond_eth_bridge.Common.{
  ℕ, none, [], Result, ok, err, ltb, if◌then◌else◌, invalid_value, invalid_duration,
}
use elrond_eth_bridge.Common.Int.{ℤ, pos, ltb_ℤ}
use elrond_eth_bridge.Bridge.Monad.{Executor}

-- The numbers of `ArgsBridgeExecutor`; the duration is in nanoseconds.
pub record ArgsBridgeExecutor : Type 0 where
  pub time_for_wait_on_ethereum : ℤ
  pub max_quorum_retries_on_ethereum : ℕ
  pub max_quorum_retries_on_elrond : ℕ
  pub max_retries_on_was_proposed : ℕ

abbrev pub duration_limit : ℤ
duration_limit = pos 1000000000

abbrev pub min_retries : ℕ
min_retries = 1

-- `checkArgs`
unfoldable pub check_args : ArgsBridgeExecutor → Result (Unit {0})
check_args args =
    if ltb_ℤ args.time_for_wait_on_ethereum duration_limit
    then err invalid_duration
    else (if ltb args.max_quorum_retries_on_ethereum min_retries
        then err invalid_value
        else (if ltb args.max_quorum_retries_on_elrond min_retries
            then err invalid_value
            else (if ltb args.max_retries_on_was_proposed min_retries
                then err invalid_value
                else ok tt)))

-- `createBridgeExecutor`: the other fields have Go's zero values.
unfoldable pub create_bridge_executor : ArgsBridgeExecutor → Executor
create_bridge_executor args = record {
  max_quorum_retries_on_ethereum = args.max_quorum_retries_on_ethereum;
  max_quorum_retries_on_elrond = args.max_quorum_retries_on_elrond;
  max_retries_on_was_proposed = args.max_retries_on_was_proposed;
  batch = none;
  action_id = 0;
  msg_hash = [];
  quorum_retries_on_ethereum = 0;
  quorum_retries_on_elrond = 0;
  retries_on_was_proposed = 0;
}

-- `NewBridgeExecutor`
unfoldable pub new_bridge_executor : ArgsBridgeExecutor → Result Executor
new_bridge_executor args = elim (check_args args) [
  | err e ↦ err e
  | ok _ ↦ ok (create_bridge_executor args)
]
