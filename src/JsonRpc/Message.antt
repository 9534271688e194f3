-- ===== src/JsonRpc/Message.antt =====
-- rockets/jsonrpc/response.h, utils.h and helpers.cpp: the messages that the two sides exchange.
pub mod Laws
use rockets.Prelude.{
  ℕ, Text, bytes, text_eq, is_empty, Bool, true, false, not, Option, none, some, List, [], ◌∷◌,
  length, take, ◌==◌, if◌then◌else◌,
}
use rockets.Prelude.Int.{ℤ, pos, negsuc}
use rockets.Prelude.Result.{Exception, Result, ok, throw, parse_error, type_error, ◌>>=◌}
use rockets.Json.{JsonLib, integer, object}
use rockets.Json.Access.{text, make_null}
use rockets.JsonRpc.ErrorCode

-- ws::Request: the message, or the parameters of a method, and the client that it is from.
pub record Request : Type 0 where
  pub message : Text
  pub client_id : ℕ

pub record Error : Type 0 where
  pub message : Text
  pub code : ℤ
  pub data_text : Text

pub record Response : Type 0 where
  pub result : Text
  pub error : Error

abbrev pub make_error : Text → ℤ → Error
make_error message code = record { message = message; code = code; data_text = [] }

-- The two constructors of `Response`.
abbrev pub success : Text → Response
success result = record { result = result; error = make_error [] (pos 0) }

abbrev pub failure : Error → Response
failure error = record { result = []; error = error }

abbrev is_nonzero : ℤ → Bool
is_nonzero (pos n) = not (n == 0)
is_nonzero (negsuc n) = true

unfoldable pub is_error : Response → Bool
is_error rep = is_nonzero rep.error.code

unfoldable pub invalid_params : Response
invalid_params = failure (make_error (bytes "Invalid params") ErrorCode.invalid_params)

abbrev pub internal_error : Error
internal_error = make_error (bytes "Internal error") ErrorCode.internal_error

-- string.compare(0, other.length(), other) == 0
unfoldable pub begins_with : Text → Text → Bool
begins_with s other = text_eq (take (length other) s) other

module _ (lib : JsonLib) where
  open lib use {Json, make}

  -- `json::parse`, which throws
  unfoldable pub parse : Text → Result Json
  parse s = elim (lib.parse s) [ none ↦ throw (parse_error (lib.parse_what s)) | some j ↦ ok j ]

  abbrev version : Text × Json
  version = (bytes "jsonrpc", text lib (bytes "2.0"))

  -- makeErrorResponse(const json& error, const json& id)
  unfoldable pub error_response : Json → Json → Json
  error_response error id = make (object (version ∷ (bytes "error", error) ∷ (bytes "id", id) ∷ []))

  abbrev error_fields : Error → List (Text × Json)
  error_fields error =
      (bytes "code", make (integer error.code)) ∷ (bytes "message", text lib error.message) ∷ []

  abbrev with_data : List (Text × Json) → Json → List (Text × Json)
  with_data [] d = (bytes "data", d) ∷ []
  with_data (f ∷ fs) d = f ∷ with_data fs d

  -- makeErrorResponse(const Response::Error& error, const json& id)
  unfoldable pub make_error_response : Error → Json → Result Json
  unfolding parse error_response
  make_error_response error id =
      let with_parsed = do
        d ← parse error.data_text
        ok (error_response (make (object (with_data (error_fields error) d))) id)
      in if not (is_empty error.data_text)
        then with_parsed
        else ok (error_response (make (object (error_fields error))) id)

  -- makeErrorResponse(const Response::Error& error, const json& id, const json& data)
  unfoldable pub make_error_response_with : Error → Json → Json → Json
  unfolding error_response
  make_error_response_with error id d =
      error_response (make (object (with_data (error_fields error) d))) id

  -- makeResponse(const json& result, const json& id)
  unfoldable pub result_response : Json → Json → Json
  result_response result id =
      make (object (version ∷ (bytes "result", result) ∷ (bytes "id", id) ∷ []))

  -- makeResponse(const std::string& resultJson, const json& id)
  unfoldable pub make_text_response : Text → Json → Json
  unfolding result_response make_error_response_with
  make_text_response result_json id = elim (lib.parse result_json) [
    | some result ↦ result_response result id
    | none ↦
        make_error_response_with internal_error id
          (text lib (bytes "Server response is not a valid json string"))
  ]

  -- makeResponse(const Response& rep, const json& id)
  unfoldable pub make_response : Response → Json → Result Json
  unfolding is_error make_error_response make_text_response
  make_response rep id =
      if is_error rep
      then make_error_response rep.error id
      else ok (make_text_response rep.result id)

  -- `dump(4)` of a value that may hold a string which is no UTF-8
  unfoldable pub dump_text : Json → Result Text
  dump_text j = if lib.encodes j then ok (lib.dump j) else throw type_error

  -- makeNotification, without parameters and with them
  unfoldable pub make_notification : Text → Result Text
  unfolding dump_text
  make_notification method =
      dump_text (make (object (version ∷ (bytes "method", text lib method) ∷ [])))

  unfoldable pub make_notification_with : Text → Text → Result Text
  unfolding parse dump_text
  make_notification_with method params = do
    p ← parse params
    dump_text
        (make (object (version ∷ (bytes "method", text lib method) ∷ (bytes "params", p) ∷ [])))

  -- Notifier::notify: the text that is sent
  unfoldable pub notify : Text → Text → Result Text
  unfolding make_notification make_notification_with
  notify method params =
      if is_empty params then make_notification method else make_notification_with method params
