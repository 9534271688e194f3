-- ===== src/JsonRpc/Examples.antt =====
-- Tests of the JSON-RPC modules: a receiver with one method, and a requester that waits for one
-- response.
use rockets.Prelude.{
  ℕ, ◌+◌, ◌≡◌, refl, Text, bytes, text_eq, true, none, some, [], ◌∷◌, is_some, arith, ◌==◌,
  if◌then◌else◌,
}
use rockets.Prelude.Assoc.{find, nat_eq, text_key, erase}
use rockets.Prelude.Result.{ok, throw, type_error, Exception}
use rockets.Prelude.Act.{Act, lift}
use rockets.Json.{JsonLib, field}
use rockets.Json.Access.{member, number}
use rockets.Json.Toy.{Value, vunsigned, vnull, toy, toy-laws, read}
use rockets.JsonRpc.Message.{success, result_response, make_response, is_error, make_text_response}
use rockets.JsonRpc.Processor.{
  now, id_of, process_command, process_batch_blocking, process_valid, dispatch, is_valid_request,
  method_of, params_of,
}
use rockets.JsonRpc.Processor.Replies.{Replies}
use rockets.JsonRpc.Processor.Batch.{collect, batch_text, process_batch_blocking-collect}
use rockets.JsonRpc.Receiver.{
  Methods, ResponseCallback, receive, run, call_method, reply_to, is_registered_method_name,
}
use rockets.JsonRpc.Receiver.Laws.{receiver-Replies}
use rockets.JsonRpc.Requester.{
  Requester, calls, sends, request, make_request, request_json, process_response,
  process_valid_response, with_id, respond_to, is_valid_response, response_of,
}
use rockets.JsonRpc.Requester.Answers.{Once}
use rockets.JsonRpc.Requester.Pending.{
  IsValid, request-fresh, bad_params_reuse_id, process_response-Once,
}
use rockets.JsonRpc.Requester.RoundTrip.{round_trip}

-- The library that knows no document, to build those that the tests use.
abbrev blank : JsonLib
blank = toy []

sent : Value
unfolding make_request
sent = make_request blank (bytes "get") 3

reply : Value
unfolding result_response
reply = result_response blank (vunsigned 7) (vunsigned 3)

abbrev lib : JsonLib
lib = toy (vunsigned 7 ∷ sent ∷ reply ∷ [])

abbrev count_calls : ResponseCallback ℕ
count_calls request s = (ok (success (bytes "7")), s + 1)

abbrev methods : Methods ℕ
methods = (bytes "get", count_calls) ∷ []

-- One response is awaited, of the request 2; callbacks are numbers.
abbrev waiting : Requester ℕ
waiting = record { pending_requests = (2, 20) ∷ []; last_id = 3 }

waiting-IsValid : IsValid waiting
waiting-IsValid = record { given = ground arith }

method_bound : find (bytes "get") methods ≡ some count_calls
unfolding find text_eq
method_bound = refl

value_read : lib.parse (bytes "7") ≡ some (vunsigned 7)
unfolding read text_eq
value_read = refl

sent_read :
    lib.parse (lib.dump (make_request lib (bytes "get") 3))
    ≡ some (make_request lib (bytes "get") 3)
unfolding read text_eq make_request sent
sent_read = refl

reply_read :
    lib.parse (lib.dump (result_response lib (vunsigned 7) (vunsigned 3)))
    ≡ some (result_response lib (vunsigned 7) (vunsigned 3))
unfolding read text_eq make_request result_response sent reply
reply_read = refl

bad_read : lib.parse (bytes "{") ≡ none
unfolding read text_eq make_request result_response sent reply
bad_read = refl

request_made : request_json lib (bytes "get") [] 3 ≡ some (make_request lib (bytes "get") 3)
unfolding request_json
request_made = refl

round_trip_example :
    let (effects, id, r1) = request lib (bytes "get") [] 30 waiting in
    (message : Text) × (answer : Text) × (r2 : Requester ℕ) × (effects ≡ sends message ∷ [])
    × (receive lib methods (record { message = message; client_id = 1 }) 0 ≡ (ok answer, 1))
    × (process_response lib answer r1 ≡ ok (true, calls 30 (success (bytes "7")) ∷ [], r2))
    × ((k : ℕ) → find k r2.pending_requests ≡ find k waiting.pending_requests)
round_trip_example =
    round_trip lib (toy-laws (vunsigned 7 ∷ sent ∷ reply ∷ [])) methods count_calls (bytes "get")
      (bytes "7") (vunsigned 7) 1 0 1 30 waiting waiting-IsValid (omega arith) method_bound refl
      value_read sent_read reply_read

-- Two responses are awaited.
abbrev two_waiting : Requester ℕ
two_waiting = record { pending_requests = (2, 20) ∷ (3, 30) ∷ []; last_id = 4 }

abbrev waiting_again : Requester ℕ
waiting_again = record { pending_requests = (2, 20) ∷ []; last_id = 4 }

answered_reply :
    process_response lib (lib.dump reply) two_waiting
    ≡ ok (true, calls 30 (success (bytes "7")) ∷ [], waiting_again)
unfolding process_response process_valid_response with_id respond_to is_valid_response response_of
    read text_eq reply sent make_request result_response field find erase
answered_reply = refl

process_response-Once_example :
    Once lib (lib.dump reply) true (calls 30 (success (bytes "7")) ∷ []) two_waiting waiting_again
process_response-Once_example =
    process_response-Once lib (lib.dump reply) two_waiting waiting_again true
      (calls 30 (success (bytes "7")) ∷ []) answered_reply

request-fresh_example :
    let made = make_request lib (bytes "get") 3 in
    let (effects, id, r') = request lib (bytes "get") [] 30 waiting in
    (member (bytes "id") (lib.view made) ≡ some (number lib 3))
    × (effects ≡ (if lib.encodes made then sends (lib.dump made) ∷ [] else []))
    × (id ≡ (if lib.encodes made then ok 3 else throw type_error))
    × (find 3 waiting.pending_requests ≡ none)
    × ((k : ℕ)
        → find k r'.pending_requests
          ≡ (if 3 == k then some 30 else find k waiting.pending_requests))
    × IsValid r'
request-fresh_example =
    request-fresh lib (toy-laws (vunsigned 7 ∷ sent ∷ reply ∷ [])) (bytes "get") [] 30 waiting
      (make_request lib (bytes "get") 3) waiting-IsValid (omega arith) request_made

bad_params_reuse_id_example :
    let (_, id, r') = request lib (bytes "get") [] 30 waiting in
    let (_, id', r'') = request lib (bytes "put") (bytes "{") 31 r' in
    (id ≡ ok 3) × (id' ≡ id) × (is_some (find 3 r''.pending_requests) ≡ true)
bad_params_reuse_id_example =
    bad_params_reuse_id lib (bytes "get") (bytes "put") [] (bytes "{") 30 31 waiting
      (make_request lib (bytes "get") 3) (omega arith) request_made refl refl bad_read

processed :
    process_command lib (λ s. is_registered_method_name methods) (run lib methods) sent 1 0
    ≡ (ok (now reply), 1)
unfolding process_command is_valid_request method_of id_of params_of process_valid dispatch run
    is_registered_method_name call_method reply_to make_response is_error make_text_response read
    text_eq reply sent make_request result_response field find
processed = refl

receiver-Replies_example : Replies lib (id_of lib sent) reply
receiver-Replies_example =
    receiver-Replies lib (toy-laws (vunsigned 7 ∷ sent ∷ reply ∷ [])) methods sent 1 0 1 reply
      processed

never : Value → Act ℕ Value
never j = lift (throw Exception.future_error)

process_batch_blocking-collect_example :
    process_batch_blocking lib
      (λ s. is_registered_method_name methods)
      (run lib methods)
      never
      (sent ∷ vnull ∷ [])
      1
      0
    ≡ batch_text lib
        (λ s. is_registered_method_name methods)
        (run lib methods)
        never
        (collect lib
          (λ s. is_registered_method_name methods)
          (run lib methods)
          never
          1
          (sent ∷ vnull ∷ [])
          0)
process_batch_blocking-collect_example =
    process_batch_blocking-collect lib (λ s. is_registered_method_name methods) (run lib methods)
      never (toy-laws (vunsigned 7 ∷ sent ∷ reply ∷ [])) 1 (sent ∷ vnull ∷ []) 0
