-- ===== src/JsonRpc/Message/Laws.antt =====
-- What a reply carries.
use rockets.Prelude.{
  ◌≡◌, refl, inl, inr, Text, bytes, text_eq, is_empty, true, not, some, arith, Bool-cases,
  Option-cases,
}
use rockets.Prelude.Result.{ok, >>=-eq-ok, ok-injective}
use rockets.Json.{JsonLib, JsonLaws, object, field}
use rockets.Json.Access.{member, text, count, member-object, is_object-object, is_object}
use rockets.JsonRpc.Message.{
  Error, Response, error_response, result_response, make_error_response, make_error_response_with,
  make_text_response, make_response, is_error, parse, with_data, error_fields,
}

-- A reply to the request with an id: an object of version 2.0 with that id and either a result or an
-- error, and not both.
pub record IsReplyTo (lib : JsonLib) (id reply : lib.Json) : Type 0 where
  pub is_obj : is_object (lib.view reply) ≡ true
  pub version : member (bytes "jsonrpc") (lib.view reply) ≡ some (text lib (bytes "2.0"))
  pub same_id : member (bytes "id") (lib.view reply) ≡ some id
  pub one_of : count lib reply (bytes "result") ≡ not (count lib reply (bytes "error"))

module _ (lib : JsonLib) (laws : JsonLaws lib) where
  pub error_response-IsReplyTo : (e id : lib.Json) → IsReplyTo lib id (error_response lib e id)
  unfolding error_response field text_eq
  error_response-IsReplyTo e id = record {
    is_obj = is_object-object lib laws _;
    version = member-object lib laws (bytes "jsonrpc") _;
    same_id = member-object lib laws (bytes "id") _;
    one_of =
        rw (member-object lib laws (bytes "result") _, member-object lib laws (bytes "error") _)
          refl;
  }

  result_response-IsReplyTo : (r id : lib.Json) → IsReplyTo lib id (result_response lib r id)
  unfolding result_response field text_eq
  result_response-IsReplyTo r id = record {
    is_obj = is_object-object lib laws _;
    version = member-object lib laws (bytes "jsonrpc") _;
    same_id = member-object lib laws (bytes "id") _;
    one_of =
        rw (member-object lib laws (bytes "result") _, member-object lib laws (bytes "error") _)
          refl;
  }

  pub make_error_response-IsReplyTo :
      (e : Error) (id reply : lib.Json)
      → make_error_response lib e id ≡ ok reply
      → IsReplyTo lib id reply
  unfolding make_error_response parse
  make_error_response-IsReplyTo e id reply h = elim (Bool-cases (is_empty e.data_text)) [
    | inl plain ↦
        let same : error_response lib _ id ≡ reply = ok-injective (rw plain at h) in
        rw (← same) (error_response-IsReplyTo _ id)
    | inr given ↦
        let (d, _, k) =
          >>=-eq-ok (parse lib e.data_text)
            (λ d.
              ok (error_response lib (lib.make (object (with_data lib (error_fields lib e) d))) id))
            (rw given at h) in
        rw (← ok-injective k) (error_response-IsReplyTo _ id)
  ]

  make_text_response-IsReplyTo :
      (s : Text) (id : lib.Json) → IsReplyTo lib id (make_text_response lib s id)
  unfolding make_text_response make_error_response_with
  make_text_response-IsReplyTo s id = elim (Option-cases (lib.parse s)) [
    | inl bad ↦ rw (bad, make_text_response) (error_response-IsReplyTo _ id)
    | inr (r, good) ↦ rw (good, make_text_response) (result_response-IsReplyTo r id)
  ]

  -- Whatever a method responded, the reply made of it is a reply to the request.
  pub make_response-IsReplyTo :
      (rep : Response) (id reply : lib.Json)
      → make_response lib rep id ≡ ok reply
      → IsReplyTo lib id reply
  unfolding make_response
  make_response-IsReplyTo rep id reply h = elim (Bool-cases (is_error rep)) [
    | inl bad ↦ make_error_response-IsReplyTo rep.error id reply (rw bad at h)
    | inr good ↦
        let e : make_text_response lib rep.result id ≡ reply = ground arith in
        rw (← e) (make_text_response-IsReplyTo rep.result id)
  ]
