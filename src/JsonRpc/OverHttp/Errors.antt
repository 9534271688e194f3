-- ===== src/JsonRpc/OverHttp/Errors.antt =====
-- What a JSON-RPC client makes of the error for an HTTP request that failed.
use rockets.Prelude.{ℕ, ◌%◌, ◌≡◌, Text, bytes, text_eq, true, some, List, [], ◌∷◌, arith}
use rockets.Prelude.Assoc.{find, text_key, nat_eq, erase}
use rockets.Prelude.Result.{ok}
use rockets.Json.{JsonLib, JsonLaws, object, field}
use rockets.Json.Access.{member, number, text, is_object-object, member-object}
use rockets.JsonRpc.ErrorCode
use rockets.JsonRpc.Message.{failure}
use rockets.JsonRpc.Requester.{
  Requester, calls, size_mod, process_response, process_valid_response, with_id, respond_to,
  is_valid_response, is_valid_error, response_of, error_of, has_valid_error,
}
use rockets.JsonRpc.OverHttp.{json_http_error, make_json_http_error, http_error_fields}

module _ (lib : JsonLib) (laws : JsonLaws lib) where
  module _ (message : Text) (id : ℕ) where
    abbrev error_fields : List (Text × lib.Json)
    error_fields =
        (bytes "jsonrpc", text lib (bytes "2.0"))
        ∷ (bytes "error", lib.make (object (http_error_fields lib message)))
        ∷ (bytes "id", number lib id)
        ∷ []

    error-valid : is_valid_error lib (lib.make (object (http_error_fields lib message))) ≡ true
    unfolding is_valid_error field text_eq
    error-valid = ground (
      arith,
      is_object-object lib laws (http_error_fields lib message),
      member-object lib laws (bytes "code") (http_error_fields lib message),
      member-object lib laws (bytes "message") (http_error_fields lib message),
      laws.view-integer ErrorCode.http_error,
      laws.view-string message,
    )

    http_error-valid : is_valid_response lib (json_http_error lib message (number lib id)) ≡ ok true
    unfolding is_valid_response has_valid_error json_http_error field text_eq
    http_error-valid = ground (
      arith,
      error-valid,
      member-object lib laws (bytes "jsonrpc") error_fields,
      member-object lib laws (bytes "result") error_fields,
      member-object lib laws (bytes "error") error_fields,
      member-object lib laws (bytes "id") error_fields,
      laws.view-string (bytes "2.0"),
      laws.view-unsigned id,
    )

    http_error-id :
        member (bytes "id") (lib.view (json_http_error lib message (number lib id)))
        ≡ some (number lib id)
    unfolding json_http_error field text_eq
    http_error-id = member-object lib laws (bytes "id") error_fields

    http_error-response :
        response_of lib (json_http_error lib message (number lib id))
        ≡ ok (failure (record { message = message; code = ErrorCode.http_error; data_text = [] }))
    unfolding response_of error_of json_http_error field text_eq
    http_error-response = ground (
      arith,
      member-object lib laws (bytes "error") error_fields,
      member-object lib laws (bytes "message") (http_error_fields lib message),
      member-object lib laws (bytes "code") (http_error_fields lib message),
      member-object lib laws (bytes "data") (http_error_fields lib message),
      laws.view-integer ErrorCode.http_error,
      laws.view-string message,
    )

  module _ {C : Type 0} (message : Text) (id : ℕ) (callback : C) (r : Requester C)
      (narrow : id % size_mod ≡ id) (waits : find id r.pending_requests ≡ some callback)
      (carried : lib.parse (make_json_http_error lib message (number lib id))
        ≡ some (json_http_error lib message (number lib id))) where
    pub failed :
        process_response lib (make_json_http_error lib message (number lib id)) r
        ≡ ok (
          true,
          calls callback (
                failure (record { message = message; code = ErrorCode.http_error; data_text = [] }))
              ∷ [],
          record r { pending_requests = erase id r.pending_requests },
        )
    unfolding process_response process_valid_response with_id respond_to
    failed = ground (
      arith,
      http_error-valid message id,
      http_error-id message id,
      http_error-response message id,
      laws.view-unsigned id,
    )
