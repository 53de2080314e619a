-- ===== src/Batch/Validator.antt =====
-- clients/batchValidator/batchValidator.go: the question to the microservice whether a batch is the
-- one that it knows.
pub mod Validated
mod Tests
use elrond_eth_bridge.Common.{
  ℕ, ◌==◌, String, Bool, true, false, not, ◌&&◌, Option, some, none, List, [], ◌∷◌, Result, ok, err,
  Error, ltb, if◌then◌else◌, invalid_value, unexpected_status, empty_response_body,
}
use elrond_eth_bridge.Common.Bytes.{Bytes}
use elrond_eth_bridge.Common.Int.{ℤ, pos, ltb_ℤ}
use elrond_eth_bridge.Common.Panic.{Run, pure, panic, ◌>>=◌, or_return}
use elrond_eth_bridge.Batch.{TransferBatch}

-- `chain.Chain`, a string, which may be none of the three constants.
pub data Chain : Type 0 where
  elrond ethereum bsc : Chain
  other : String → Chain

-- `http.Response`: its body, unless it is `http.NoBody`, is read into data, with an error or none.
pub record HttpResponse : Type 0 where
  pub status_code : ℕ
  pub has_body : Bool
  pub body : Bytes
  pub read_error : Option Error

-- JSON and HTTP. `new_request` is `NewRequestWithContext` with the configured URL, whose request is nil
-- beside an error; a request is its text. A response is read as the value of `valid`, and a response
-- to a bad request as its message.
pub record Microservice (W : Type 0) : Type 0 where
  pub marshal_batch : TransferBatch → Result Bytes
  pub new_request : Bytes → Result Bytes
  pub do_request : Bytes → W → Result HttpResponse × W
  pub unmarshal_response : Bytes → Result Bool
  pub unmarshal_bad_response : Bytes → Result Bytes

abbrev pub status_bad_request : ℕ
status_bad_request = 400

abbrev pub status_ok : ℕ
status_ok = 200

-- One millisecond, in nanoseconds.
abbrev min_request_time : ℤ
min_request_time = pos 1000000

-- `checkArgs`
unfoldable pub check_chain : Chain → Result (Unit {0})
check_chain (other _) = err invalid_value
check_chain _ = ok tt

unfoldable pub check_args : Chain → Chain → ℤ → Result (Unit {0})
check_args source_chain destination_chain request_time = elim (check_chain source_chain) [
  | err e ↦ err e
  | ok _ ↦ elim (check_chain destination_chain) [
    | err e ↦ err e
    | ok _ ↦ if ltb_ℤ request_time min_request_time then err invalid_value else ok tt
  ]
]

abbrev to_result : Option Error → Bytes → Result Bytes
to_result none body = ok body
to_result (some e) body = err e

module _ {W : Type 0} (service : Microservice W) where
  -- What `doRequestReturningBytes` makes of a response.
  unfoldable pub read_response : HttpResponse → Result Bytes
  read_response response =
      if response.status_code == status_bad_request && response.has_body
      then elim (service.unmarshal_bad_response response.body) [
        | err e ↦ err e
        | ok _ ↦ err unexpected_status
      ]
      else (if not (response.status_code == status_ok)
          then err unexpected_status
          else to_result response.read_error response.body)

  -- `doRequestReturningBytes`, which panics on a nil request.
  unfoldable pub do_request_returning_bytes : Bytes → Run W (Result Bytes)
  do_request_returning_bytes batch w = elim (service.new_request batch) [
    | err _ ↦ none
    | ok request ↦ elim (service.do_request request w).0 [
      | err e ↦ some (err e, (service.do_request request w).1)
      | ok response ↦ some (read_response response, (service.do_request request w).1)
    ]
  ]

  -- `ValidateBatch` from the response on.
  unfoldable pub is_valid : Bytes → Result Bool
  is_valid [] = err empty_response_body
  is_valid (b ∷ bytes) = service.unmarshal_response (b ∷ bytes)

  -- `ValidateBatch`, with `doRequest`
  unfoldable pub validate_batch : TransferBatch → Run W (Result Bool)
  validate_batch batch = or_return (service.marshal_batch batch) λ body. do
    r ← do_request_returning_bytes body
    or_return r λ response. pure (is_valid response)

-- A `BatchValidator`, as `CreateBatchValidator` of the factory makes it: the microservice once its
-- arguments are checked, or the disabled one, which accepts every batch.
pub data BatchValidator (W : Type 0) : Type 0 where
  asking : Microservice W → BatchValidator W
  disabled : BatchValidator W

unfoldable pub create_batch_validator :
    {W : Type 0} → Chain → Chain → ℤ → Microservice W → Bool → Result (BatchValidator W)
create_batch_validator source_chain destination_chain request_time service enabled =
    if enabled
    then elim (check_args source_chain destination_chain request_time) [
      | err e ↦ err e
      | ok _ ↦ ok (asking service)
    ]
    else ok disabled

-- `ValidateBatch` of either.
unfoldable pub validate : {W : Type 0} → BatchValidator W → TransferBatch → Run W (Result Bool)
validate (asking service) batch = validate_batch service batch
validate disabled batch = pure (ok true)
