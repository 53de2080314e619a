-- ===== src/Bridge/Kept.antt =====
-- What all the clients of bridges/ethElrond/bridgeExecutor.go keep of their world.
use elrond_eth_bridge.Common.{ℕ, String, Option, none, some, List, ok, ◌≡◌}
use elrond_eth_bridge.Common.Int.{ℤ, int64}
use elrond_eth_bridge.Batch.{Bytes, DepositTransfer, TransferBatch}
use elrond_eth_bridge.Bridge.Clients.{LogLevel, Environment}
use elrond_eth_bridge.Bridge.Monad.{Bridge}

module _ {W : Type 0} (env : Environment W) (P : W → Type 0)
    (D : List DepositTransfer → Type 0) where
  open env use {elrond_client, ethereum_client}

  abbrev pub Keeps : {A : Type 0} → (W → A × W) → Type 0
  Keeps f = (w : W) → P w → P (f w).1

  -- Each call keeps `P` of the world; the deposits of a fetched batch have the property `D`, and a
  -- transfer is executed only for such deposits, with a quorum that the client returned.
  pub record IsKept : Type 0 where
    pub get_pending_kept : Keeps elrond_client.get_pending
    pub pending_deposits :
        (w : W) (b : TransferBatch)
        → P w
        → (elrond_client.get_pending w).0 ≡ ok (some b)
        → D b.deposits
    pub was_proposed_transfer_kept :
        (b : TransferBatch) → Keeps (elrond_client.was_proposed_transfer b)
    pub quorum_reached_kept : (id : ℕ) → Keeps (elrond_client.quorum_reached id)
    pub action_executed_kept : (id : ℕ) → Keeps (elrond_client.was_executed id)
    pub get_action_id_for_propose_transfer_kept :
        (b : TransferBatch) → Keeps (elrond_client.get_action_id_for_propose_transfer b)
    pub was_proposed_set_status_kept :
        (b : TransferBatch) → Keeps (elrond_client.was_proposed_set_status b)
    pub get_action_id_for_set_status_kept :
        (b : TransferBatch)
        → Keeps (elrond_client.get_action_id_for_set_status_on_pending_transfer b)
    pub get_last_executed_eth_batch_id_kept : Keeps elrond_client.get_last_executed_eth_batch_id
    pub get_last_executed_eth_tx_id_kept : Keeps elrond_client.get_last_executed_eth_tx_id
    pub propose_set_status_kept : (b : TransferBatch) → Keeps (elrond_client.propose_set_status b)
    pub propose_transfer_kept : (b : TransferBatch) → Keeps (elrond_client.propose_transfer b)
    pub sign_kept : (id : ℕ) → Keeps (elrond_client.sign id)
    pub was_signed_kept : (id : ℕ) → Keeps (elrond_client.was_signed id)
    pub perform_action_kept :
        (id : ℕ) (b : TransferBatch) → Keeps (elrond_client.perform_action id b)
    pub elrond_availability_kept : Keeps elrond_client.check_client_availability
    pub get_batch_kept : (nonce : ℕ) → Keeps (ethereum_client.get_batch nonce)
    pub batch_deposits :
        (nonce : ℕ) (w : W) (b : TransferBatch)
        → P w
        → (ethereum_client.get_batch nonce w).0 ≡ ok (some b)
        → D b.deposits
    pub transfer_executed_kept : (id : ℕ) → Keeps (ethereum_client.was_executed id)
    pub message_hash_kept :
        (b : TransferBatch) (w : W)
        → P w
        → D b.deposits
        → P (ethereum_client.after_generate_message_hash b w)
    pub broadcast_kept :
        (hash : Bytes) (w : W)
        → P w
        → P (ethereum_client.broadcast_signature_for_message_hash hash w)
    pub get_quorum_size_kept : Keeps ethereum_client.get_quorum_size
    pub execute_transfer_kept :
        (hash : Bytes) (b : TransferBatch) (q : ℕ) (v w : W)
        → P v
        → (ethereum_client.get_quorum_size v).0 ≡ ok q
        → D b.deposits
        → P w
        → P (ethereum_client.execute_transfer hash b (int64 q) w).1
    pub get_transactions_statuses_kept :
        (id : ℕ) → Keeps (ethereum_client.get_transactions_statuses id)
    pub is_quorum_reached_kept : (hash : Bytes) → Keeps (ethereum_client.is_quorum_reached hash)
    pub ethereum_availability_kept : Keeps ethereum_client.check_client_availability
    pub my_turn_kept : Keeps env.my_turn_as_leader
    pub validate_batch_kept : (b : TransferBatch) → Keeps (env.validate_batch b)
    pub clear_kept : (w : W) → P w → P (env.clear_stored_signatures w)
    pub int_metric_kept : (m : String) (v : ℤ) (w : W) → P w → P (env.set_int_metric m v w)
    pub string_metric_kept : (m v : String) (w : W) → P w → P (env.set_string_metric m v w)
    pub log_kept : (l : LogLevel) (m : String) (w : W) → P w → P (env.log l m w)
    pub wait_kept : Keeps env.wait

  -- The same, as one fact.
  unfoldable pub AllKept : Type 0
  AllKept = IsKept

  pub all_kept : AllKept → IsKept
  unfolding AllKept
  all_kept h = h

-- `P` of the world, and `D` of the stored deposits.
module _ {W : Type 0} (P : W → Type 0) (D : List DepositTransfer → Type 0) where
  abbrev pub DepositsOf : Option TransferBatch → Type 0
  DepositsOf none = Unit
  DepositsOf (some b) = D b.deposits

  unfoldable pub Fits : Bridge W → Type 0
  Fits s = P s.world × DepositsOf s.executor.batch
