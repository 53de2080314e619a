-- ===== src/Elrond/DataGetter/Statuses.antt =====
-- GetTransactionsStatuses of clients/elrond/dataGetter.go: which answers of the contract are read, and
-- as what.
use elrond_eth_bridge.Common.{
  ℕ, ◌≡◌, ◌≢◌, ◌↔◌, refl, ap, ◌++◌, some, List, [], ◌∷◌, ok, Result-cases, arith,
}
use elrond_eth_bridge.Common.Bytes.{Bytes, bytes_equal_iff}
use elrond_eth_bridge.Elrond.DataGetter.{
  Node, DataGetter, VmValuesResponse, ok_code_after_execution, parse_bool, get_status_from_buff,
  get_statuses, read_statuses, execute_query_returning_bytes, execute_query_from_builder,
  get_transactions_statuses, about,
}

-- The last byte of a value is the status.
abbrev pub EndsIn : Bytes → ℕ → Type 0
EndsIn buff stat = (front : Bytes) × (buff ≡ front ++ stat ∷ [])

abbrev pub EndIn : List Bytes → Bytes → Type 0
EndIn [] [] = Unit
EndIn [] (stat ∷ results) = ⊥
EndIn (value ∷ values) [] = ⊥
EndIn (value ∷ values) (stat ∷ results) = EndsIn value stat × EndIn values results

-- The first value starts with 1, and each of the others, of which there is one, ends in a status.
abbrev pub Reports : List Bytes → Bytes → Type 0
Reports [] results = ⊥
Reports (first ∷ values) results =
    ((rest : Bytes) × (first ≡ 1 ∷ rest)) × (results ≢ []) × EndIn values results

get_status-append : (front : Bytes) (stat : ℕ) → get_status_from_buff (front ++ stat ∷ []) ≡ ok stat
unfolding get_status_from_buff
get_status-append [] stat = refl
get_status-append (a ∷ []) stat = refl
get_status-append (a ∷ b ∷ front) stat = get_status-append (b ∷ front) stat

get_status-EndsIn :
    (buff : Bytes) (stat : ℕ) → get_status_from_buff buff ≡ ok stat → EndsIn buff stat
unfolding get_status_from_buff
get_status-EndsIn [] stat h = ground arith
get_status-EndsIn (b ∷ []) stat h = ([], ground arith)
get_status-EndsIn (b ∷ c ∷ buff) stat h =
    let (front, same) = get_status-EndsIn (c ∷ buff) stat h in (b ∷ front, ap (◌∷◌ b) same)

get_statuses-EndIn :
    (values : List Bytes) (results : Bytes)
    → get_statuses values ≡ ok results
    → EndIn values results
unfolding get_statuses
get_statuses-EndIn [] [] h = tt
get_statuses-EndIn [] (stat ∷ results) h = ground arith
get_statuses-EndIn (value ∷ values) [] h =
    ground (arith, Result-cases (get_status_from_buff value), Result-cases (get_statuses values))
get_statuses-EndIn (value ∷ values) (stat ∷ results) h =
    (get_status-EndsIn value stat (both.0), get_statuses-EndIn values results (both.1))
  where
    both : (get_status_from_buff value ≡ ok stat) × (get_statuses values ≡ ok results)
    both =
        ground
          (arith, h, Result-cases (get_status_from_buff value), Result-cases (get_statuses values))

EndIn-get_statuses :
    (values : List Bytes) (results : Bytes)
    → EndIn values results
    → get_statuses values ≡ ok results
unfolding get_statuses
EndIn-get_statuses [] [] h = refl
EndIn-get_statuses [] (stat ∷ results) h = absurd h
EndIn-get_statuses (value ∷ values) [] h = absurd h
EndIn-get_statuses (value ∷ values) (stat ∷ results) ((front, same), rest) = ground (
  arith,
  ap get_status_from_buff same,
  get_status-append front stat,
  EndIn-get_statuses values results rest,
)

-- The reading of a finished batch, without the bytes of the values.
read_finished_iff :
    (b : ℕ) (rest : Bytes) (values : List Bytes) (results : Bytes)
    → (read_statuses ((b ∷ rest) ∷ values) ≡ ok results)
      ↔ ((b ≡ 1) × (results ≢ []) × (get_statuses values ≡ ok results))
unfolding read_statuses parse_bool
read_finished_iff b rest values [] = ground (arith, Result-cases (get_statuses values))
read_finished_iff b rest values (stat ∷ results) =
    ground (arith, Result-cases (get_statuses values))

read_statuses_iff :
    (values : List Bytes) (results : Bytes)
    → (read_statuses values ≡ ok results) ↔ Reports values results
unfolding read_statuses parse_bool
read_statuses_iff [] results = ground arith
read_statuses_iff ([] ∷ values) results =
    (λ h. ground (arith, h), λ h. let (rest, same) = h.0 in ground (arith, same))
read_statuses_iff ((b ∷ rest) ∷ values) results = (
  λ h.
      let (one, some_results, read) = (read_finished_iff b rest values results).0 h in
      ((rest, ap (λ (n : ℕ). n ∷ rest) one), some_results, get_statuses-EndIn values results read),
  λ h.
      let ((tail, same), some_results, ends) = h in
      (read_finished_iff b rest values results).1
        (ground (arith, same), some_results, EndIn-get_statuses values results ends),
)

module _ {E : Type 0} (node : Node E) where
  -- The statuses of a batch are read exactly when the contract's answer has the code "ok", its first
  -- value starts with a 1, and it has at least one more value, each of which ends in a status; the
  -- statuses are those last bytes, in order.
  pub get_transactions_statuses_iff :
      (batch_id : ℕ) (request : Bytes) (response : VmValuesResponse) (results : Bytes)
      (s : DataGetter E)
      → node.to_vm_value_request (about "getStatusesAfterExecution" batch_id []) ≡ ok (some request)
      → (node.execute_vm_query request s.world).0 ≡ ok response
      → ((get_transactions_statuses node batch_id s).0 ≡ ok results)
        ↔ ((response.return_code ≡ ok_code_after_execution) × Reports response.return_data results)
  unfolding get_transactions_statuses execute_query_from_builder execute_query_returning_bytes
  get_transactions_statuses_iff batch_id request response results s built answered = grind (
    arith,
    built,
    answered,
    bytes_equal_iff response.return_code ok_code_after_execution,
    read_statuses_iff response.return_data results,
  )
