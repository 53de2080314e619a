-- ===== src/Batch/Tests.antt =====
-- clients/batch.go at concrete batches.
use elrond_eth_bridge.Common.{◌≡◌, refl, some, [], ◌∷◌}
use elrond_eth_bridge.Common.Int.{pos}
use elrond_eth_bridge.Batch.{DepositTransfer, TransferBatch, rejected, resolve_new_deposits}
use elrond_eth_bridge.Batch.Resolve.{resolved, resolve_new_deposits_lem}

abbrev deposit : DepositTransfer
deposit = record {
  nonce = 1;
  to_bytes = 1 ∷ [];
  displayable_to = "to";
  from_bytes = 2 ∷ [];
  displayable_from = "from";
  token_bytes = 3 ∷ [];
  converted_token_bytes = 4 ∷ [];
  displayable_token = "token";
  amount = some (pos 5);
}

abbrev batch : TransferBatch
batch = record { id = 8; deposits = deposit ∷ []; statuses = 3 ∷ 3 ∷ 3 ∷ [] }

fewer_deposits : (resolve_new_deposits 1 batch).statuses ≡ 3 ∷ rejected ∷ rejected ∷ []
unfolding resolve_new_deposits
fewer_deposits = refl

more_deposits : (resolve_new_deposits 5 batch).statuses ≡ 3 ∷ 3 ∷ 3 ∷ rejected ∷ rejected ∷ []
unfolding resolve_new_deposits
more_deposits = refl

resolve_new_deposits_lem_example :
    resolve_new_deposits 5 batch ≡ record batch { statuses = resolved 5 (3 ∷ 3 ∷ 3 ∷ []) }
resolve_new_deposits_lem_example = resolve_new_deposits_lem 5 batch
