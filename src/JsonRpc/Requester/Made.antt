-- ===== src/JsonRpc/Requester/Made.antt =====
-- What a receiver and a requester read in the messages that the other made.
use rockets.Prelude.{
  ℕ, ◌≡◌, Text, bytes, text_eq, is_empty, true, some, List, [], ◌∷◌, inl, inr, Bool-cases,
  Option-cases, arith,
}
use rockets.Prelude.Assoc.{text_key, nat_eq}
use rockets.Prelude.Result.{ok}
use rockets.Json.{JsonLib, JsonLaws, field}
use rockets.Json.Access.{member, number, text, is_object, member-object, is_object-object}
use rockets.JsonRpc.Message.{success, result_response}
use rockets.JsonRpc.Processor.{is_valid_request, id_of, params_of, method_of}
use rockets.JsonRpc.Requester.{
  make_request, make_request_with, request_json, request_fields, is_valid_response, response_of,
}

module _ (lib : JsonLib) (laws : JsonLaws lib) where
  module _ (method : Text) (id : ℕ) where
    pub made-valid : is_valid_request lib (make_request lib method id) ≡ ok true
    unfolding is_valid_request make_request field text_eq
    made-valid = ground (
      arith,
      member-object lib laws (bytes "jsonrpc") (request_fields lib method id []),
      member-object lib laws (bytes "method") (request_fields lib method id []),
      member-object lib laws (bytes "params") (request_fields lib method id []),
      member-object lib laws (bytes "id") (request_fields lib method id []),
      laws.view-string (bytes "2.0"),
      laws.view-string method,
      laws.view-unsigned id,
    )

    pub made-id : id_of lib (make_request lib method id) ≡ number lib id
    unfolding id_of make_request field text_eq
    made-id = ground (arith, member-object lib laws (bytes "id") (request_fields lib method id []))

    pub made-params : params_of lib (make_request lib method id) ≡ []
    unfolding params_of make_request field text_eq
    made-params =
        ground (arith, member-object lib laws (bytes "params") (request_fields lib method id []))

    pub made-method : method_of lib (make_request lib method id) ≡ ok method
    unfolding method_of make_request field text_eq
    made-method = ground (
      arith,
      member-object lib laws (bytes "method") (request_fields lib method id []),
      laws.view-string method,
    )

    pub made-object : is_object (lib.view (make_request lib method id)) ≡ true
    unfolding make_request
    made-object = is_object-object lib laws (request_fields lib method id [])

  module _ (value : lib.Json) (id : ℕ) where
    abbrev reply_fields : List (Text × lib.Json)
    reply_fields =
        (bytes "jsonrpc", text lib (bytes "2.0"))
        ∷ (bytes "result", value)
        ∷ (bytes "id", number lib id)
        ∷ []

    pub reply-valid : is_valid_response lib (result_response lib value (number lib id)) ≡ ok true
    unfolding is_valid_response result_response field text_eq
    reply-valid = ground (
      arith,
      member-object lib laws (bytes "jsonrpc") reply_fields,
      member-object lib laws (bytes "result") reply_fields,
      member-object lib laws (bytes "error") reply_fields,
      member-object lib laws (bytes "id") reply_fields,
      laws.view-string (bytes "2.0"),
      laws.view-unsigned id,
    )

    pub reply-id :
        member (bytes "id") (lib.view (result_response lib value (number lib id)))
        ≡ some (number lib id)
    unfolding result_response field text_eq
    reply-id = member-object lib laws (bytes "id") reply_fields

    pub reply-response :
        response_of lib (result_response lib value (number lib id)) ≡ ok (success (lib.dump value))
    unfolding response_of result_response field text_eq
    reply-response = ground (
      arith,
      member-object lib laws (bytes "result") reply_fields,
      member-object lib laws (bytes "error") reply_fields,
    )

    pub reply-object : is_object (lib.view (result_response lib value (number lib id))) ≡ true
    unfolding result_response
    reply-object = is_object-object lib laws reply_fields

  -- A request carries the id that it is made with.
  pub request_json-id :
      (method params : Text) (id : ℕ) (j : lib.Json)
      → request_json lib method params id ≡ some j
      → member (bytes "id") (lib.view j) ≡ some (number lib id)
  unfolding request_json make_request make_request_with field text_eq
  request_json-id method params id j made = elim (Bool-cases (is_empty params)) [
    | inl none_given ↦
        let same : make_request lib method id ≡ j = ground arith in
        rw (← same) (member-object lib laws (bytes "id") (request_fields lib method id []))
    | inr given ↦ elim (Option-cases (lib.parse params)) [
      | inl bad ↦ absurd (ground arith)
      | inr (p, good) ↦
          let same : make_request_with lib method id p ≡ j = ground arith in
          rw (← same) (
            member-object lib laws (bytes "id")
              (request_fields lib method id ((bytes "params", p) ∷ [])))
    ]
  ]
