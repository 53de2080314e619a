-- ===== src/Batch/Validator/Tests.antt =====
-- A microservice that accepts every batch, as a small function.
use elrond_eth_bridge.Common.{ℕ, ◌≡◌, ◌↔◌, ◌⊎◌, Error, err, refl, true, none, [], ◌∷◌, ok}
use elrond_eth_bridge.Common.Panic.{Returns}
use elrond_eth_bridge.Batch.{TransferBatch}
use elrond_eth_bridge.Batch.Validator.{status_ok, HttpResponse, Microservice, validate_batch}
use elrond_eth_bridge.Batch.Validator.Validated.{SaysValid, validate_batch_iff}

abbrev response : HttpResponse
response = record { status_code = 200; has_body = true; body = 1 ∷ []; read_error = none }

abbrev service : Microservice ℕ
service = record {
  marshal_batch = λ b. ok (7 ∷ []);
  new_request = λ body. ok body;
  do_request = λ request w. (ok response, w);
  unmarshal_response = λ body. ok true;
  unmarshal_bad_response = λ body. ok [];
}

abbrev batch : TransferBatch
batch = record { id = 3; deposits = []; statuses = [] }

validate_batch_iff_example :
    Returns
      (λ r _.
        ((r ≡ ok true) ↔ SaysValid service response)
        × ((response.status_code ≡ status_ok) ⊎ ((e : Error) × (r ≡ err e))))
      (validate_batch service batch 0)
validate_batch_iff_example =
    validate_batch_iff service batch (7 ∷ []) (7 ∷ []) response 0 refl refl refl
