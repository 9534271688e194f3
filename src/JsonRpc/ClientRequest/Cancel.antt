-- ===== src/JsonRpc/ClientRequest/Cancel.antt =====
-- A client cancels its request, and a cancellable receiver is told so.
use rockets.Prelude.{ℕ, ◌+◌, ◌<◌, ◌≡◌, refl, Text, bytes, text_eq, Option, some, true, [], ◌∷◌}
use rockets.Prelude.Assoc.{Eq, find, erase}
use rockets.Prelude.Result.{ok}
use rockets.Json.{JsonLib, JsonLaws, field}
use rockets.Json.Access.{number, is_null, make_null, member, member-object}
use rockets.JsonRpc.Message.{Response}
use rockets.JsonRpc.Requester.{Requester, request_json, size_mod}
use rockets.JsonRpc.Requester.Pending.{request-sent, returned-store}
use rockets.JsonRpc.Cancellable.{Requests, cancels, replies, application}
use rockets.JsonRpc.Cancellable.Once.{cancelled}
use rockets.JsonRpc.CancellableReceiver.{CancellableMethods, calls, process, cancel_and_respond}
use rockets.JsonRpc.ClientRequest.{
  Outcome, outcome_of, get_cancel_json, cancel_object, request_typed,
}

module _ (lib : JsonLib) (laws : JsonLaws lib) where
  cancel-id :
      (id : ℕ) → member (bytes "id") (lib.view (cancel_object lib id)) ≡ some (number lib id)
  unfolding field text_eq
  cancel-id id = member-object lib laws (bytes "id") ((bytes "id", number lib id) ∷ [])

  null_id : is_null (lib.view (make_null lib)) ≡ true
  null_id = rw laws.view-null refl

  module _ ⦃e : Eq lib.Json⦄ {A R K T P : Type 0} where
    -- A request of a client with typed parameters whose strings are UTF-8, while ids have not
    -- wrapped: where the receiver has it in work with a cancel function of the application, its id is
    -- returned, and the parameters of the client's cancel make `process` call that function, answer
    -- the notification with null, and take just the entry of that request out of the table, the state
    -- of the application unchanged. It is asked that the library parses the parameters back to the
    -- value that it dumped.
    pub process-cancel :
        (to_json : P → Text) (from_json : Text → Option T) (method : Text) (params : P)
        (r : Requester (Response → Outcome T)) (j : lib.Json)
        (methods : CancellableMethods lib.Json K A) (client_id : ℕ) (respond : R) (a : A) (stop : K)
        (callback : Option R) (table : Requests lib.Json R K)
        → r.last_id + 1 < size_mod
        → request_json lib method (to_json params) r.last_id ≡ some j
        → lib.encodes j ≡ true
        → find (number lib r.last_id) table ≡ some (application stop, callback)
        → lib.parse (get_cancel_json lib r.last_id) ≡ some (cancel_object lib r.last_id)
        → let (_, id, _) = request_typed lib to_json from_json method params r in
          (id ≡ ok r.last_id)
          × (process lib methods
                (make_null lib)
                (bytes "cancel")
                (record { message = get_cancel_json lib r.last_id; client_id = client_id })
                respond
                (a, table)
              ≡ (
                ok (
                    calls (cancels stop callback (number lib r.last_id))
                    ∷ calls (replies respond (make_null lib))
                    ∷ []),
                (a, erase (number lib r.last_id) table),
              ))
    unfolding request_typed process cancel_and_respond text_eq
    process-cancel to_json from_json method params r j methods client_id respond a stop callback
          table small made encoded waits carried =
        rw
          (
            request-sent lib method (to_json params) (outcome_of from_json) r j made encoded,
            returned-store (outcome_of from_json) r small,
            cancelled lib (make_null lib) (number lib r.last_id) (cancel_object lib r.last_id)
                (get_cancel_json lib r.last_id) stop callback table carried (cancel-id r.last_id)
                null_id waits,
          )
          (refl, refl)
