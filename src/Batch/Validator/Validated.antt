-- ===== src/Batch/Validator/Validated.antt =====
-- When clients/batchValidator/batchValidator.go accepts a batch.
use elrond_eth_bridge.Common.{
  ◌≡◌, ◌≢◌, ◌↔◌, ◌⊎◌, Error, err, inl, inr, true, none, [], ◌∷◌, ok, Result-cases, arith,
}
use elrond_eth_bridge.Common.Bytes.{Bytes}
use elrond_eth_bridge.Common.Panic.{Returns}
use elrond_eth_bridge.Batch.{TransferBatch}
use elrond_eth_bridge.Batch.Validator.{
  HttpResponse, Microservice, status_ok, read_response, do_request_returning_bytes, is_valid,
  validate_batch, BatchValidator, asking, disabled, validate,
}

-- A response that says that the batch is valid.
pub record SaysValid {W : Type 0} (service : Microservice W) (response : HttpResponse)
    : Type 0 where
  pub status_is : response.status_code ≡ status_ok
  pub was_read : response.read_error ≡ none
  pub some_body : response.body ≢ []
  pub understood : service.unmarshal_response response.body ≡ ok true

module _ {W : Type 0} (service : Microservice W) where
  is_valid_iff :
      (body : Bytes)
      → (is_valid service body ≡ ok true)
        ↔ ((body ≢ []) × (service.unmarshal_response body ≡ ok true))
  unfolding is_valid
  is_valid_iff [] = ground arith
  is_valid_iff (b ∷ body) = ground arith

  -- Once a request for the batch is made and answered, the validator does not panic, and it accepts
  -- the batch exactly when the status of the response is 200, its body was read without an error and
  -- is not empty, and is the JSON text of a response that says so. Where the status is another one, it returns an error.
  pub validate_batch_iff :
      (batch : TransferBatch) (body request : Bytes) (response : HttpResponse) (w : W)
      → service.marshal_batch batch ≡ ok body
      → service.new_request body ≡ ok request
      → (service.do_request request w).0 ≡ ok response
      → Returns
          (λ r _.
            ((r ≡ ok true) ↔ SaysValid service response)
            × ((response.status_code ≡ status_ok) ⊎ ((e : Error) × (r ≡ err e))))
          (validate_batch service batch w)
  unfolding validate_batch do_request_returning_bytes read_response
  validate_batch_iff batch body request response w marshalled made answered =
      grind (arith, marshalled, made, answered, is_valid_iff response.body)

  -- Where requests can be made, the validator does not panic.
  pub validate_batch-Returns :
      (batch : TransferBatch) (w : W)
      → ((body : Bytes) → (request : Bytes) × (service.new_request body ≡ ok request))
      → Returns (λ _ _. Unit) (validate_batch service batch w)
  unfolding validate_batch do_request_returning_bytes
  validate_batch-Returns batch w makes = elim (Result-cases (service.marshal_batch batch)) [
    | inr (e, failed) ↦ ground (arith, failed)
    | inl (body, marshalled) ↦
        let (request, made) = makes body in
        ground (arith, marshalled, made, Result-cases (service.do_request request w).0)
  ]

-- A request can be made with the URL of the validator, unless it is disabled.
abbrev pub MakesRequests : {W : Type 0} → BatchValidator W → Type 0
MakesRequests (asking service) =
    (body : Bytes) → (request : Bytes) × (service.new_request body ≡ ok request)
MakesRequests disabled = Unit {0}

pub validate-Returns :
    {W : Type 0} (v : BatchValidator W) (batch : TransferBatch) (w : W)
    → MakesRequests v
    → Returns (λ _ _. Unit) (validate v batch w)
unfolding validate
validate-Returns (asking service) batch w makes = validate_batch-Returns service batch w makes
validate-Returns disabled batch w makes = tt
