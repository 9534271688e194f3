-- ===== src/JsonRpc/OverHttp/Exchange.antt =====
-- A request of a JSON-RPC client over HTTP, answered or failed.
use rockets.Prelude.{ℕ, ◌+◌, ◌<◌, ◌≡◌, refl, Text, true, none, some, List, [], ◌∷◌, arith}
use rockets.Prelude.Assoc.{find, text_key, nat_eq, erase}
use rockets.Prelude.Result.{ok}
use rockets.Prelude.Act.{Act}
use rockets.Json.{JsonLib, JsonLaws}
use rockets.Json.Access.{number, is_object}
use rockets.Http.Types.{
  Request as HttpRequest, Response as HttpResponse, ready, make_response as make_http_response,
  make_typed_response,
}
use rockets.JsonRpc.ErrorCode
use rockets.JsonRpc.Message.{Request, success, failure, result_response, parse}
use rockets.JsonRpc.Processor.{now, id_of, process}
use rockets.JsonRpc.Receiver.{Methods, ResponseCallback}
use rockets.JsonRpc.AsyncReceiver.{AsyncMethods, process_async, is_registered_method_name, run}
use rockets.JsonRpc.Requester.{
  Requester, Effect, calls, sends, size_mod, request, make_request, process_response, store,
}
use rockets.JsonRpc.Requester.Pending.{IsValid, request-sent, find-store}
use rockets.JsonRpc.Requester.Made.{made-id, made-object, reply-object}
use rockets.JsonRpc.Requester.Processed.{object_cases, processed}
use rockets.JsonRpc.Requester.RoundTrip.{answered, restored, ran, known, made_json}
use rockets.JsonRpc.OverHttp.Errors.{failed}
use rockets.JsonRpc.OverHttp.{
  packed_reply, process_json_rpc, json_http_error, make_json_http_error, id_member, send_text,
  on_response, on_error, or_notification, handle_message,
}

packed : (t : Text) → on_response (packed_reply t) ≡ record { message = t; client_id = 0 }
unfolding on_response packed_reply make_http_response make_typed_response
packed [] = refl
packed (c ∷ t) = refl

module _ (lib : JsonLib) (laws : JsonLaws lib) where
  id_member-object :
      (j : lib.Json) → is_object (lib.view j) ≡ true → id_member lib (lib.view j) ≡ ok (id_of lib j)
  unfolding id_member id_of
  id_member-object j h = let (fs, e) = object_cases lib laws (lib.view j) h in ground arith

  posted :
      (method : Text) (id : ℕ)
      → lib.parse (lib.dump (make_request lib method id)) ≡ some (make_request lib method id)
      → send_text lib (lib.dump (make_request lib method id))
        ≡ ok (lib.dump (make_request lib method id), number lib id)
  unfolding send_text parse
  posted method id carried = ground (
    arith,
    id_member-object (make_request lib method id) (made-object lib laws method id),
    made-id lib laws method id,
  )

module _ (lib : JsonLib) (laws : JsonLaws lib) {A : Type 0} where
  endpoint_answers :
      (served : AsyncMethods A) (await : lib.Json → Act A lib.Json) (action : ResponseCallback A)
      (method result : Text) (value : lib.Json) (http : HttpRequest) (id : ℕ) (s s' : A)
      → find method served.delayed ≡ none
      → find method served.immediate ≡ some action
      → action (record { message = []; client_id = 0 }) s ≡ (ok (success result), s')
      → lib.parse result ≡ some value
      → lib.parse (lib.dump (make_request lib method id)) ≡ some (make_request lib method id)
      → process_json_rpc lib served await
          (record http { body = lib.dump (make_request lib method id) })
          s
        ≡ (ok (ready (packed_reply (lib.dump (result_response lib value (number lib id))))), s')
  unfolding process_json_rpc process_async
  endpoint_answers served await action method result value http id s s' free bound acts encoded
        there =
      rw answered_now refl
    where
      runs :
          run lib served (number lib id) method (record { message = []; client_id = 0 }) s
          ≡ (ok (now (result_response lib value (number lib id))), s')
      runs =
          rw (free, run)
            (ran lib laws served.immediate method id 0 action result value s s' bound acts encoded)

      registered : is_registered_method_name served method ≡ true
      registered =
          rw (free, is_registered_method_name)
            (known lib laws served.immediate method id 0 action result value s s' bound acts
              encoded)

      answered_now :
          process lib
            (λ t. is_registered_method_name served)
            (run lib served)
            await
            (record { message = lib.dump (make_request lib method id); client_id = 0 })
            s
          ≡ (ok (now (lib.dump (result_response lib value (number lib id)))), s')
      answered_now =
          processed lib laws (λ t. is_registered_method_name served) (run lib served) await method
            id 0 (result_response lib value (number lib id)) s s' registered runs
            (reply-object lib laws value id) there

module _ (lib : JsonLib) (laws : JsonLaws lib) {B C : Type 0} where
  handled :
      (methods : Methods B) (message : Request) (r r' : Requester C) (a : B)
      (effects : List (Effect C))
      → process_response lib message.message r ≡ ok (true, effects, r')
      → handle_message lib methods true message r a ≡ (ok effects, r', a)
  unfolding handle_message or_notification
  handled methods message r r' a effects done = rw (done, handle_message) refl

  -- A request of a JSON-RPC client without parameters is sent as the body of one HTTP request. If that
  -- fails, the callback of the request is called, once, with the reason and the code of an HTTP
  -- error, after which those callbacks wait that waited before, and the client's application is left
  -- alone. It is asked that ids have not wrapped, and that the library parses the two messages back
  -- to the values that it dumped.
  pub request-failed :
      (methods : Methods B) (method reason : Text) (callback : C) (r : Requester C) (a : B)
      → IsValid r
      → r.last_id + 1 < size_mod
      → lib.parse (lib.dump (make_request lib method r.last_id))
        ≡ some (make_request lib method r.last_id)
      → lib.parse (make_json_http_error lib reason (number lib r.last_id))
        ≡ some (json_http_error lib reason (number lib r.last_id))
      → let (effects, id, r1) = request lib method [] callback r in
        (message : Text) × (kept : lib.Json) × (r2 : Requester C) × (effects ≡ sends message ∷ [])
        × (send_text lib message ≡ ok (message, kept))
        × (handle_message lib methods true (on_error lib kept reason) r1 a ≡ (
          ok (
              calls callback
                (failure (record { message = reason; code = ErrorCode.http_error; data_text = [] }))
              ∷ []),
          r2,
          a,
        ))
        × ((k : ℕ) → find k r2.pending_requests ≡ find k r.pending_requests)
  unfolding on_error
  request-failed methods method reason callback r a v small there back =
      rw
        (request-sent lib method [] callback r _ (made_json lib method r.last_id)
          (laws.parse-encodes _ _ there))
        (
          lib.dump (make_request lib method r.last_id),
          number lib r.last_id,
          _,
          refl,
          posted lib laws method r.last_id there,
          handled methods _ (store callback r) _ a _ (
              failed lib laws reason r.last_id callback (store callback r) (omega arith)
                (ground (arith, find-store callback r r.last_id v)) back),
          λ k. restored callback r v k,
        )

module _ (lib : JsonLib) (laws : JsonLaws lib) {A B C : Type 0} where
  -- Where the endpoint's receiver has the method, and not as an asynchronous one, that request is
  -- answered with a response that is ready at once, the application of the server being left as the
  -- method left it; and its body makes the client call the callback of the request, once and with
  -- the method's result, after which those callbacks wait that waited before. It is asked that ids
  -- have not wrapped, that the method's result is JSON, and that the library parses the two messages
  -- back to the values that it dumped.
  pub request-answered :
      (methods : Methods B) (served : AsyncMethods A) (await : lib.Json → Act A lib.Json)
      (action : ResponseCallback A) (method result : Text) (value : lib.Json) (http : HttpRequest)
      (s s' : A) (callback : C) (r : Requester C) (a : B)
      → IsValid r
      → r.last_id + 1 < size_mod
      → find method served.delayed ≡ none
      → find method served.immediate ≡ some action
      → action (record { message = []; client_id = 0 }) s ≡ (ok (success result), s')
      → lib.parse result ≡ some value
      → lib.parse (lib.dump (make_request lib method r.last_id))
        ≡ some (make_request lib method r.last_id)
      → lib.parse (lib.dump (result_response lib value (number lib r.last_id)))
        ≡ some (result_response lib value (number lib r.last_id))
      → let (effects, id, r1) = request lib method [] callback r in
        (message : Text) × (response : HttpResponse) × (r2 : Requester C) × (effects
          ≡ sends message ∷ [])
        × (process_json_rpc lib served await (record http { body = message }) s
            ≡ (ok (ready response), s'))
        × (handle_message lib methods true (on_response response) r1 a
            ≡ (ok (calls callback (success (lib.dump value)) ∷ []), r2, a))
        × ((k : ℕ) → find k r2.pending_requests ≡ find k r.pending_requests)
  request-answered methods served await action method result value http s s' callback r a v small
        free bound acts encoded there back =
      rw
        (request-sent lib method [] callback r _ (made_json lib method r.last_id)
          (laws.parse-encodes _ _ there))
        (
          lib.dump (make_request lib method r.last_id),
          packed_reply (lib.dump reply),
          record (store callback r) {
            pending_requests = erase r.last_id (store callback r).pending_requests;
          },
          refl,
          endpoint_answers lib laws served await action method result value http r.last_id s s' free
              bound acts encoded there,
          handled lib laws methods _ (store callback r) _ a _ (
              rw (packed (lib.dump reply)) (
                answered lib laws value r.last_id callback (store callback r) (omega arith)
                  (ground (arith, find-store callback r r.last_id v)) back)),
          λ k. restored callback r v k,
        )
    where
      reply : lib.Json
      reply = result_response lib value (number lib r.last_id)
