-- ===== src/Bridge/Protocol.antt =====
-- The rules of the bridge for the requests of bridges/ethElrond: what a relayer must have been
-- told before it sends a request. The calls stand newest first.
use elrond_eth_bridge.Common.{
  ℕ, ◌≡◌, ◌≢◌, ◌+◌, u64, true, false, Option, none, some, List, [], ◌∷◌, Elem, get_elem?, Result,
  ok,
}
use elrond_eth_bridge.Batch.{Bytes, TransferBatch}
use elrond_eth_bridge.Bridge.Monad.{
  Call, my_turn, was_transfer_proposed, transfer_proposed, was_set_status_proposed,
  set_status_proposed, was_signed, signed, quorum_on_elrond, was_action_executed, action_performed,
  was_transfer_executed, quorum_on_ethereum, transfer_executed, batch_validated, last_batch_id,
  last_tx_id,
}
use elrond_eth_bridge.Bridge.Executor.{invalid_action_id, verify_deposit_nonces}

-- The last executed batch, and the last executed deposit, as Elrond answered most recently.
abbrev pub known_batch_id : List Call → ℕ
known_batch_id [] = 0
known_batch_id (last_batch_id n ∷ cs) = n
known_batch_id (_ ∷ cs) = known_batch_id cs

abbrev pub known_tx_id : List Call → ℕ
known_tx_id [] = 0
known_tx_id (last_tx_id n ∷ cs) = n
known_tx_id (_ ∷ cs) = known_tx_id cs

-- The batch that is due: it is not empty, the validator accepted it, its ID is the one after the
-- last executed batch, and its deposits follow the last executed deposit one by one.
pub record IsDue (b : TransferBatch) (cs : List Call) : Type 0 where
  pub validated : Elem (batch_validated b true) cs
  pub next_id : b.id ≡ u64 (known_batch_id cs + 1)
  pub not_empty : b.deposits ≢ []
  pub in_order : verify_deposit_nonces (known_tx_id cs) b.deposits ≡ ok tt

-- What holds of the batch that is stored.
abbrev pub Stored : (TransferBatch → Type 0) → Option TransferBatch → Type 0
Stored P none = ⊥
Stored P (some b) = P b

module _ (hash : TransferBatch → Result Bytes) where
  -- What the earlier calls must be for a call to be allowed: a proposal and a performed action come
  -- right after the answers that nobody has sent them yet and that this relayer is the leader, a
  -- signature after the answer that it is missing; an action, or a transfer, is performed only if
  -- the quorum was answered to be reached for that very action, or message hash, and the message
  -- hash is that of the transferred batch. A proposed batch is due, a transferred one was accepted
  -- by the validator, and statuses are proposed only for a batch that Ethereum answered to have
  -- executed.
  abbrev pub IsAllowed : Call → List Call → Type 0
  IsAllowed (transfer_proposed b) cs =
      (get_elem? cs 0 ≡ some (my_turn true))
      × (get_elem? cs 1 ≡ some (was_transfer_proposed b false))
      × IsDue b cs
  IsAllowed (set_status_proposed b) cs =
      (get_elem? cs 0 ≡ some (my_turn true))
      × (get_elem? cs 1 ≡ some (was_set_status_proposed b false))
      × Elem (was_transfer_executed b.id true) cs
  IsAllowed (signed id) cs =
      (get_elem? cs 0 ≡ some (was_signed id false)) × (id ≢ invalid_action_id)
  IsAllowed (action_performed id b) cs =
      (get_elem? cs 0 ≡ some (my_turn true))
      × (get_elem? cs 1 ≡ some (was_action_executed id false))
      × Elem (quorum_on_elrond id true) cs
      × (id ≢ invalid_action_id)
  IsAllowed (transfer_executed h b q) cs =
      (get_elem? cs 0 ≡ some (my_turn true))
      × (get_elem? cs 1 ≡ some (was_transfer_executed b.id false))
      × Elem (quorum_on_ethereum h true) cs
      × (hash b ≡ ok h)
      × Elem (batch_validated b true) cs
  IsAllowed _ cs = Unit

  -- Every call of a log was allowed when it was made.
  abbrev pub FollowsRules : List Call → Type 0
  FollowsRules [] = Unit
  FollowsRules (c ∷ cs) = IsAllowed c cs × FollowsRules cs
