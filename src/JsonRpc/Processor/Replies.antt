-- ===== src/JsonRpc/Processor/Replies.antt =====
-- Every request object is answered by the rules of JSON-RPC, whatever receiver is behind.
use rockets.Prelude.{ℕ, ◌≡◌, refl, ap, ◌∙◌, inl, inr, Text, Bool, true, false, arith, Bool-cases}
use rockets.Prelude.Result.{ok, >>=-eq-ok}
use rockets.Prelude.Act.{Act, continue-eq-ok}
use rockets.Json.{JsonLib, JsonLaws}
use rockets.Json.Access.{is_null, make_null}
use rockets.JsonRpc.Message.{Error, Request, make_error_response}
use rockets.JsonRpc.Message.Laws.{IsReplyTo, make_error_response-IsReplyTo}
use rockets.JsonRpc.Processor.{
  Answer, now, is_valid_request, id_of, method_of, respond_error, dispatch, process_valid,
  process_command, bad_request, unknown_method,
}

-- What a request with an id may be answered: null, which is no reply, to a notification, and a reply
-- to the request otherwise.
pub record Replies (lib : JsonLib) (id answer : lib.Json) : Type 0 where
  pub quiet : is_null (lib.view id) ≡ true → is_null (lib.view answer) ≡ true
  pub reply : is_null (lib.view id) ≡ false → IsReplyTo lib id answer

module _ (lib : JsonLib) (laws : JsonLaws lib) where
  open lib use {Json, view}

  respond_error-Replies :
      (e : Error) (id j : Json) → respond_error lib e id ≡ ok (now j) → Replies lib id j
  unfolding respond_error
  respond_error-Replies e id j h = elim (Bool-cases (is_null (view id))) [
    | inl null ↦
        let same : make_null lib ≡ j = ground arith in
        record {
          quiet = λ _. rw (← same, laws.view-null) refl;
          reply = λ some_id. absurd (ground arith);
        }
    | inr given ↦
        let (e', made, k) =
          >>=-eq-ok (make_error_response lib e id) (λ e'. ok (now e')) (rw given at h) in
        record {
          quiet = λ null. absurd (ground arith);
          reply = λ _. make_error_response-IsReplyTo lib laws e id j (made ∙ ground arith);
        }
  ]

  module _ {S : Type 0} (registered : S → Text → Bool)
      (run : Json → Text → Request → Act S (Answer Json))
      (runs : (id : Json) (method : Text) (request : Request) (s s' : S) (j : Json)
        → run id method request s ≡ (ok (now j), s')
        → Replies lib id j) where
    dispatch-Replies :
        (request : Json) (client_id : ℕ) (method : Text) (s s' : S) (j : Json)
        → dispatch lib registered run request client_id method s ≡ (ok (now j), s')
        → Replies lib (id_of lib request) j
    unfolding dispatch
    dispatch-Replies request client_id method s s' j h = elim (Bool-cases (registered s method)) [
      | inl known ↦ runs (id_of lib request) method _ s s' j (rw known at h)
      | inr unknown ↦
          respond_error-Replies unknown_method (id_of lib request) j
            (ap (λ p. p.0) (rw unknown at h))
    ]

    process_valid-Replies :
        (request : Json) (client_id : ℕ) (valid : Bool) (s s' : S) (j : Json)
        → process_valid lib registered run request client_id valid s ≡ (ok (now j), s')
        → Replies lib (id_of lib request) j
    unfolding process_valid
    process_valid-Replies request client_id false s s' j h =
        respond_error-Replies bad_request (id_of lib request) j (ap (λ p. p.0) h)
    process_valid-Replies request client_id true s s' j h =
        let (method, _, k) =
          continue-eq-ok (method_of lib request) (dispatch lib registered run request client_id)
            h in
        dispatch-Replies request client_id method s s' j k

    -- If every method of a receiver answers its request, so does the processor, whatever the request
    -- object holds: what it answers at once is null, which is no reply, if the request has no id or
    -- a null one, and otherwise an object of version 2.0 with the request's id and with either a
    -- result or an error.
    pub process_command-Replies :
        (request : Json) (client_id : ℕ) (s s' : S) (j : Json)
        → process_command lib registered run request client_id s ≡ (ok (now j), s')
        → Replies lib (id_of lib request) j
    unfolding process_command
    process_command-Replies request client_id s s' j h =
        let (valid, _, k) =
          continue-eq-ok (is_valid_request lib request)
            (process_valid lib registered run request client_id) h in
        process_valid-Replies request client_id valid s s' j k
