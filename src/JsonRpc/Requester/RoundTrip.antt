-- ===== src/JsonRpc/Requester/RoundTrip.antt =====
-- A request of a client through a synchronous receiver and back.
use rockets.Prelude.{ℕ, ◌+◌, ◌%◌, ◌<◌, ◌≡◌, refl, Text, true, some, [], ◌∷◌, arith}
use rockets.Prelude.Assoc.{find, text_key, nat_eq, erase, find-erase, nat_congr}
use rockets.Prelude.Result.{ok, throw, Exception}
use rockets.Prelude.Act.{lift}
use rockets.Json.{JsonLib, JsonLaws}
use rockets.Json.Access.{number}
use rockets.JsonRpc.Message.{success, result_response, make_response, make_text_response, is_error}
use rockets.JsonRpc.Processor.{now}
use rockets.JsonRpc.Receiver.{
  Methods, ResponseCallback, receive, run, reply_to, is_registered_method_name, text_of,
  call_method,
}
use rockets.JsonRpc.Requester.{
  Requester, calls, sends, size_mod, request, make_request, process_response,
  process_valid_response, with_id, respond_to, store, request_json,
}
use rockets.JsonRpc.Requester.Pending.{IsValid, request-sent, find-store, find_above}
use rockets.JsonRpc.Requester.Processed.{processed}
use rockets.JsonRpc.Requester.Made.{reply-valid, reply-id, reply-response, reply-object}

-- After a request and its response, the callbacks that wait are those that waited before.
pub restored :
    {C : Type 0} (callback : C) (r : Requester C)
    → IsValid r
    → (k : ℕ)
    → find k (erase r.last_id (store callback r).pending_requests) ≡ find k r.pending_requests
restored callback r v k = ground (
  arith,
  find-erase r.last_id k (store callback r).pending_requests,
  find-store callback r k v,
  find_above r.last_id r.pending_requests v.given,
  nat_congr r.last_id k k,
)

module _ (lib : JsonLib) (laws : JsonLaws lib) where
  module _ {A : Type 0} (methods : Methods A) (method : Text) (id client_id : ℕ)
      (action : ResponseCallback A) (result : Text) (value : lib.Json) (s s' : A)
      (bound : find method methods ≡ some action)
      (acts : action (record { message = []; client_id = client_id }) s ≡ (ok (success result), s'))
      (encoded : lib.parse result ≡ some value) where
    replied :
        reply_to lib (number lib id) (success result)
        ≡ ok (now (result_response lib value (number lib id)))
    unfolding reply_to make_response is_error make_text_response
    replied = ground (arith, laws.view-unsigned id)

    abbrev sent : lib.Json
    sent = make_request lib method id

    pub ran :
        run lib methods (number lib id) method (record { message = []; client_id = client_id }) s
        ≡ (ok (now (result_response lib value (number lib id))), s')
    unfolding run call_method
    ran = ground (arith, replied)

    pub known : is_registered_method_name methods method ≡ true
    unfolding is_registered_method_name
    known = rw bound refl

    received :
        lib.parse (lib.dump sent) ≡ some sent
        → receive lib methods (record { message = lib.dump sent; client_id = client_id }) s
          ≡ (ok (lib.dump (result_response lib value (number lib id))), s')
    unfolding receive text_of
    received carried = ground (
      arith,
      processed lib laws (λ t. is_registered_method_name methods) (run lib methods)
          (λ j. lift (throw Exception.future_error)) method id client_id
          (result_response lib value (number lib id)) s s' known ran
          (reply-object lib laws value id) carried,
    )

  module _ {C : Type 0} (value : lib.Json) (id : ℕ) (callback : C) (r : Requester C)
      (narrow : id % size_mod ≡ id) (waits : find id r.pending_requests ≡ some callback)
      (carried : lib.parse (lib.dump (result_response lib value (number lib id)))
        ≡ some (result_response lib value (number lib id))) where
    pub answered :
        process_response lib (lib.dump (result_response lib value (number lib id))) r
        ≡ ok (
          true,
          calls callback (success (lib.dump value)) ∷ [],
          record r { pending_requests = erase id r.pending_requests },
        )
    unfolding process_response process_valid_response with_id respond_to
    answered = ground (
      arith,
      reply-valid lib laws value id,
      reply-id lib laws value id,
      reply-response lib laws value id,
      laws.view-unsigned id,
    )

module _ (lib : JsonLib) where
  pub made_json :
      (method : Text) (id : ℕ) → request_json lib method [] id ≡ some (make_request lib method id)
  unfolding request_json
  made_json method id = refl

module _ (lib : JsonLib) (laws : JsonLaws lib) {A C : Type 0} where
  -- A request without parameters for a bound method, the synchronous receiver and the way back: the
  -- request sends one text; receiving it gives one reply, and leaves the application in the state in
  -- which the method left it; and processing that reply calls the callback of the request, once and
  -- with the method's result, after which those callbacks wait that waited before. It is asked that
  -- ids have not wrapped, that the method's result is JSON, and that the library parses the two
  -- messages back to the values that it dumped.
  pub round_trip :
      (methods : Methods A) (action : ResponseCallback A) (method result : Text) (value : lib.Json)
      (client_id : ℕ) (s s' : A) (callback : C) (r : Requester C)
      → IsValid r
      → r.last_id + 1 < size_mod
      → find method methods ≡ some action
      → action (record { message = []; client_id = client_id }) s ≡ (ok (success result), s')
      → lib.parse result ≡ some value
      → lib.parse (lib.dump (make_request lib method r.last_id))
        ≡ some (make_request lib method r.last_id)
      → lib.parse (lib.dump (result_response lib value (number lib r.last_id)))
        ≡ some (result_response lib value (number lib r.last_id))
      → let (effects, id, r1) = request lib method [] callback r in
        (message : Text) × (answer : Text) × (r2 : Requester C) × (effects ≡ sends message ∷ [])
        × (receive lib methods (record { message = message; client_id = client_id }) s
            ≡ (ok answer, s'))
        × (process_response lib answer r1
            ≡ ok (true, calls callback (success (lib.dump value)) ∷ [], r2))
        × ((k : ℕ) → find k r2.pending_requests ≡ find k r.pending_requests)
  round_trip methods action method result value client_id s s' callback r v small bound acts encoded
        there back =
      rw
        (request-sent lib method [] callback r _ (made_json lib method r.last_id)
          (laws.parse-encodes _ _ there))
        (
          lib.dump (make_request lib method r.last_id),
          lib.dump (result_response lib value (number lib r.last_id)),
          _,
          refl,
          received lib laws methods method r.last_id client_id action result value s s' bound acts
              encoded there,
          answered lib laws value r.last_id callback (store callback r) (omega arith) waits back,
          λ k. restored callback r v k,
        )
    where
      waits : find r.last_id (store callback r).pending_requests ≡ some callback
      waits = ground (arith, find-store callback r r.last_id v)
