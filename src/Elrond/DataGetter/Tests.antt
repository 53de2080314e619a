-- ===== src/Elrond/DataGetter/Tests.antt =====
-- The statuses of a finished batch, read from a small node.
use elrond_eth_bridge.Common.{ℕ, ◌+◌, ◌≡◌, ◌↔◌, refl, false, some, [], ◌∷◌, ok}
use elrond_eth_bridge.Elrond.DataGetter.{
  VmValuesResponse, Node, DataGetter, ok_code_after_execution, get_status_from_buff, get_statuses,
  parse_bool, read_statuses, get_transactions_statuses,
}
use elrond_eth_bridge.Elrond.DataGetter.Statuses.{Reports, get_transactions_statuses_iff}

abbrev response : VmValuesResponse
response = record {
  return_code = ok_code_after_execution;
  return_data = (1 ∷ []) ∷ (3 ∷ []) ∷ (0 ∷ 4 ∷ []) ∷ [];
}

abbrev node : Node ℕ
node = record {
  to_vm_value_request = λ query. ok (some (5 ∷ []));
  execute_vm_query = λ request w. (ok response, w + 1);
  get_shard_of_address = λ w. (ok 0, w);
  get_network_status = λ shard w. (ok (some 77), w);
}

abbrev getter : DataGetter ℕ
getter = record { relayer_address = 50 ∷ []; was_shard_id_fetched = false; shard_id = 0; world = 0 }

statuses_read : read_statuses response.return_data ≡ ok (3 ∷ 4 ∷ [])
unfolding read_statuses parse_bool get_statuses get_status_from_buff
statuses_read = refl

get_transactions_statuses_iff_example :
    ((get_transactions_statuses node 8 getter).0 ≡ ok (3 ∷ 4 ∷ []))
    ↔ ((response.return_code ≡ ok_code_after_execution) × Reports response.return_data (3 ∷ 4 ∷ []))
get_transactions_statuses_iff_example =
    get_transactions_statuses_iff node 8 (5 ∷ []) response (3 ∷ 4 ∷ []) getter refl refl
