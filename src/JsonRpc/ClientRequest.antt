-- ===== src/JsonRpc/ClientRequest.antt =====
-- rockets/jsonrpc/clientRequest.h and clientRequest.cpp, and the templates of requester.h that return a
-- ClientRequest: requests with a promise. A callback is what it sets the promise to, for a response.
pub mod Cancel
use rockets.Prelude.{ℕ, Text, bytes, Option, none, some, List, [], ◌∷◌, if◌then◌else◌}
use rockets.Prelude.Result.{Result}
use rockets.Json.{JsonLib, object}
use rockets.Json.Access.{number}
use rockets.JsonRpc.ErrorCode
use rockets.JsonRpc.Message.{Error, Response, make_error, is_error, make_notification_with}
use rockets.JsonRpc.Requester.{Requester, Effect, request}

-- `set_value` and `set_exception`, with the error of a response_error
pub data Outcome (T : Type 0) : Type 0 where
  value : T → Outcome T
  failed : Error → Outcome T

abbrev pub json_conversion_failed : Error
json_conversion_failed =
    make_error (bytes "Response JSON conversion failed") ErrorCode.invalid_json_response

-- The callback of the templates over the type of the result.
unfoldable pub outcome_of : {T : Type 0} → (Text → Option T) → Response → Outcome T
unfolding is_error
outcome_of from_json response =
    if is_error response then failed response.error else elim (from_json response.result) [
      | none ↦ failed json_conversion_failed
      | some v ↦ value v
    ]

module _ (lib : JsonLib) where
  -- The object of _getCancelJson
  abbrev pub cancel_object : ℕ → lib.Json
  cancel_object id = lib.make (object ((bytes "id", number lib id) ∷ []))

  unfoldable pub get_cancel_json : ℕ → Text
  get_cancel_json id = lib.dump (cancel_object id)

  -- ClientRequest::cancel: the text that is sent.
  unfoldable pub cancel : ℕ → Result Text
  unfolding get_cancel_json make_notification_with
  cancel id = make_notification_with lib (bytes "cancel") (get_cancel_json id)

  module _ {T : Type 0} where
    -- Requester::request with typed parameters, and without parameters; what is returned holds the
    -- id, and the future of the promise.
    unfoldable pub request_typed :
        {P : Type 0}
        → (P → Text)
        → (Text → Option T)
        → Text
        → P
        → Requester (Response → Outcome T)
        → List (Effect (Response → Outcome T)) × Result ℕ × Requester (Response → Outcome T)
    unfolding request outcome_of
    request_typed to_json from_json method params =
        request lib method (to_json params) (outcome_of from_json)

    unfoldable pub request_result :
        (Text → Option T)
        → Text
        → Requester (Response → Outcome T)
        → List (Effect (Response → Outcome T)) × Result ℕ × Requester (Response → Outcome T)
    unfolding request outcome_of
    request_result from_json method = request lib method [] (outcome_of from_json)

  -- Requester::request with a text for parameters, whose promise takes the response itself.
  unfoldable pub request_response :
      Text
      → Text
      → Requester (Response → Outcome Response)
      → List (Effect (Response → Outcome Response))
        × Result ℕ
        × Requester (Response → Outcome Response)
  unfolding request
  request_response method params = request lib method params (λ response. value response)
