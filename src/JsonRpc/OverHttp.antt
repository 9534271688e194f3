-- ===== src/JsonRpc/OverHttp.antt =====
-- rockets/jsonrpc/http.h, http.cpp and client.h: JSON-RPC carried by HTTP POST requests. What the HTTP
-- client and server do with a request is Http's; here is what they are given and what becomes of it.
pub mod Errors
pub mod Exchange
use rockets.Prelude.{
  Text, bytes, is_empty, Bool, true, false, Option, none, some, List, [], ◌∷◌, if◌then◌else◌,
}
use rockets.Prelude.Result.{Result, ok, throw, type_error}
use rockets.Prelude.Result
use rockets.Prelude.Act.{Act, pure, ◌>>=◌}
use rockets.Json.{JsonLib, View, null, object, integer}
use rockets.Json.Access.{text, make_null, member}
use rockets.Http.Types.{
  Request as HttpRequest, Response as HttpResponse, Future, make_response, make_typed_response,
}
use rockets.Http.Code
use rockets.JsonRpc.ErrorCode
use rockets.JsonRpc.Message.{Request, parse}
use rockets.JsonRpc.Processor.{Answer, now, later}
use rockets.JsonRpc.Receiver.{Methods, receive}
use rockets.JsonRpc.AsyncReceiver.{AsyncMethods, process_async, future_of}
use rockets.JsonRpc.Requester.{Requester, Effect, process_response}

-- `connect`: the HTTP response for a reply.
unfoldable pub packed_reply : Text → HttpResponse
unfolding make_response make_typed_response
packed_reply body =
    if is_empty body
    then make_response Code.ok []
    else make_typed_response Code.ok body (bytes "application/json")

abbrev pub map_answer {ℓ κ} : {X : Type ℓ} {Y : Type κ} → (X → Y) → Answer X → Answer Y
map_answer f (now x) = now (f x)
map_answer f later = later

-- `connect`: the REST function of the endpoint. No client has the id 0.
unfoldable pub process_json_rpc :
    {A : Type 0} (lib : JsonLib)
    → AsyncMethods A
    → (lib.Json → Act A lib.Json)
    → HttpRequest
    → Act A (Future HttpResponse)
unfolding process_async packed_reply
process_json_rpc lib methods await request = do
  answer ← process_async lib methods await (record { message = request.body; client_id = 0 })
  pure (future_of (map_answer packed_reply answer))

-- The callback of the HTTP request: the message that the client's callback is called with.
unfoldable pub on_response : HttpResponse → Request
on_response response = record { message = response.body; client_id = 0 }

module _ (lib : JsonLib) where
  open lib use {Json, view, make}

  abbrev pub http_error_fields : Text → List (Text × Json)
  http_error_fields message =
      (bytes "message", text lib message) ∷ (bytes "code", make (integer ErrorCode.http_error)) ∷ []

  -- makeJsonHttpError
  unfoldable pub json_http_error : Text → Json → Json
  json_http_error message id = make (
      object (
        (bytes "jsonrpc", text lib (bytes "2.0"))
        ∷ (bytes "error", make (object (http_error_fields message)))
        ∷ (bytes "id", id)
        ∷ []))

  unfoldable pub make_json_http_error : Text → Json → Text
  unfolding json_http_error
  make_json_http_error message id = lib.dump (json_http_error message id)

  -- json["id"], which makes a member that is missing, and an object of null
  unfoldable pub id_member : View Json → Result Json
  id_member (object fs) = elim (member (bytes "id") (object fs)) [
    | none ↦ ok (make_null lib)
    | some id ↦ ok id
  ]
  id_member null = ok (make_null lib)
  id_member _ = throw type_error

  -- HttpCommunicator::sendText: the body that is posted, and the id that the error callback keeps.
  unfoldable pub send_text : Text → Result (Text × Json)
  unfolding parse id_member
  send_text message =
      Result.◌>>=◌ (parse lib message) λ j. Result.◌>>=◌ (id_member (view j)) λ id. ok (message, id)

  -- The error callback of the HTTP request, likewise.
  unfoldable pub on_error : Json → Text → Request
  unfolding make_json_http_error
  on_error id message = record { message = make_json_http_error message id; client_id = 0 }

  module _ {C A : Type 0} (methods : Methods A) where
    -- What is left to do with a message behind `processResponse`: if that was no response, it is a
    -- notification, whose reply is dropped.
    unfoldable pub or_notification :
        Request
        → A
        → Bool × List (Effect C) × Requester C
        → Result (List (Effect C)) × Requester C × A
    unfolding receive
    or_notification request a (true, effects, r) = (ok effects, r, a)
    or_notification request a (false, effects, r) =
        let (reply, a') = receive lib methods request a in
        (Result.◌>>=◌ reply λ _. ok effects, r, a')

    -- The callback of a JSON-RPC client for the messages that come, which does nothing once the
    -- client is gone.
    unfoldable pub handle_message :
        Bool → Request → Requester C → A → Result (List (Effect C)) × Requester C × A
    unfolding process_response or_notification
    handle_message false request r a = (ok [], r, a)
    handle_message true request r a = elim (process_response lib request.message r) [
      | throw x ↦ (throw x, r, a)
      | ok result ↦ or_notification request a result
    ]
