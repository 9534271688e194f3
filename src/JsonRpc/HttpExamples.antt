-- ===== src/JsonRpc/HttpExamples.antt =====
-- Tests of JSON-RPC over HTTP: a request with the id 3, which is answered with 7 or fails.
use rockets.Prelude.{
  ℕ, ◌+◌, ◌≡◌, refl, Text, bytes, text_eq, true, none, some, List, [], ◌∷◌, arith,
}
use rockets.Prelude.Assoc.{find, nat_eq, text_key}
use rockets.Prelude.Result.{ok, throw, Exception}
use rockets.Prelude.Act.{Act, lift}
use rockets.Json.{JsonLib}
use rockets.Json.Toy.{Value, vunsigned, toy, toy-laws, read}
use rockets.Http.Types.{Request as HttpRequest, Response as HttpResponse, post, ready}
use rockets.JsonRpc.ErrorCode
use rockets.JsonRpc.Message.{success, failure, result_response}
use rockets.JsonRpc.Receiver.{Methods, ResponseCallback}
use rockets.JsonRpc.AsyncReceiver.{AsyncMethods}
use rockets.JsonRpc.Requester.{Requester, calls, sends, request, make_request}
use rockets.JsonRpc.Requester.Pending.{IsValid}
use rockets.JsonRpc.OverHttp.{
  process_json_rpc, json_http_error, make_json_http_error, send_text, on_response, on_error,
  handle_message,
}
use rockets.JsonRpc.OverHttp.Exchange.{request-failed, request-answered}

abbrev blank : JsonLib
blank = toy []

asked : Value
unfolding make_request
asked = make_request blank (bytes "get") 3

answer : Value
unfolding result_response
answer = result_response blank (vunsigned 7) (vunsigned 3)

failure_message : Value
unfolding json_http_error
failure_message = json_http_error blank (bytes "gone") (vunsigned 3)

abbrev documents : List Value
documents = vunsigned 7 ∷ asked ∷ answer ∷ failure_message ∷ []

abbrev lib : JsonLib
lib = toy documents

abbrev count_calls : ResponseCallback ℕ
count_calls request s = (ok (success (bytes "7")), s + 1)

abbrev served : AsyncMethods ℕ
served = record { delayed = []; immediate = (bytes "get", count_calls) ∷ [] }

abbrev waiting : Requester ℕ
waiting = record { pending_requests = (2, 20) ∷ []; last_id = 3 }

waiting-IsValid : IsValid waiting
waiting-IsValid = record { given = ground arith }

abbrev no_methods : Methods ℕ
no_methods = []

never : Value → Act ℕ Value
never j = lift (throw Exception.future_error)

abbrev http_post : HttpRequest
http_post = record { method = post; path = []; origin = []; host = []; query = []; body = [] }

method_bound : find (bytes "get") served.immediate ≡ some count_calls
unfolding find text_eq
method_bound = refl

not_delayed : find (bytes "get") served.delayed ≡ none
unfolding find
not_delayed = refl

value_read : lib.parse (bytes "7") ≡ some (vunsigned 7)
unfolding read text_eq
value_read = refl

asked_read :
    lib.parse (lib.dump (make_request lib (bytes "get") 3))
    ≡ some (make_request lib (bytes "get") 3)
unfolding read text_eq make_request asked
asked_read = refl

answer_read :
    lib.parse (lib.dump (result_response lib (vunsigned 7) (vunsigned 3)))
    ≡ some (result_response lib (vunsigned 7) (vunsigned 3))
unfolding read text_eq make_request result_response asked answer
answer_read = refl

failure_read :
    lib.parse (make_json_http_error lib (bytes "gone") (vunsigned 3))
    ≡ some (json_http_error lib (bytes "gone") (vunsigned 3))
unfolding read text_eq make_request result_response json_http_error make_json_http_error asked
    answer failure_message
failure_read = refl

request-failed_example :
    let (effects, id, r1) = request lib (bytes "get") [] 30 waiting in
    (message : Text) × (kept : Value) × (r2 : Requester ℕ) × (effects ≡ sends message ∷ [])
    × (send_text lib message ≡ ok (message, kept))
    × (handle_message lib no_methods true (on_error lib kept (bytes "gone")) r1 0 ≡ (
      ok (
          calls 30 (
            failure
              (record { message = bytes "gone"; code = ErrorCode.http_error; data_text = [] }))
          ∷ []),
      r2,
      0,
    ))
    × ((k : ℕ) → find k r2.pending_requests ≡ find k waiting.pending_requests)
request-failed_example =
    request-failed lib (toy-laws documents) no_methods (bytes "get") (bytes "gone") 30 waiting 0
      waiting-IsValid (omega arith) asked_read failure_read

request-answered_example :
    let (effects, id, r1) = request lib (bytes "get") [] 30 waiting in
    (message : Text) × (response : HttpResponse) × (r2 : Requester ℕ) × (effects
      ≡ sends message ∷ [])
    × (process_json_rpc lib served never (record http_post { body = message }) 0
        ≡ (ok (ready response), 1))
    × (handle_message lib no_methods true (on_response response) r1 0
        ≡ (ok (calls 30 (success (bytes "7")) ∷ []), r2, 0))
    × ((k : ℕ) → find k r2.pending_requests ≡ find k waiting.pending_requests)
request-answered_example =
    request-answered lib (toy-laws documents) no_methods served never count_calls (bytes "get")
      (bytes "7") (vunsigned 7) http_post 0 1 30 waiting 0 waiting-IsValid (omega arith) not_delayed
      method_bound refl value_read asked_read answer_read
