-- ===== src/JsonRpc/ProgressExamples.antt =====
-- Tests of the dispatch of a cancellable receiver: a method that tells of its progress, and a client
-- that cancels its request.
use rockets.Prelude.{ℕ, ◌≡◌, refl, Text, bytes, text_eq, List, Option, none, some, arith, [], ◌∷◌}
use rockets.Prelude.Assoc.{find, erase, put, text_key}
use rockets.Prelude.Result.{ok}
use rockets.Json.{JsonLib, object}
use rockets.Json.Access.{number, make_null}
use rockets.Json.Toy.{Value, vunsigned, vfloat, vstring, toy, toy-laws, read, value_eq}
use rockets.JsonRpc.Message.{
  Request, Response, success, result_response, make_response, is_error, make_text_response, parse,
  begins_with, make_notification_with, dump_text,
}
use rockets.JsonRpc.Processor.{verify_valid_method_name}
use rockets.JsonRpc.Cancellable.{
  Requests, Outputs, replies, cancels, application, start, reply_of, respond_to_request,
  respond_all, set_cancel, set_cancel_of, process_cancellable, verify_cancellable_method_name,
}
use rockets.JsonRpc.Requester.{Requester, request_json, make_request}
use rockets.JsonRpc.ClientRequest.{Outcome, request_typed, get_cancel_json, cancel_object}
use rockets.JsonRpc.ClientRequest.Cancel.{process-cancel}
use rockets.JsonRpc.CancellableReceiver.{
  calls, responds, progresses, Sent, Acted, CancellableCallback, CancellableMethods,
  register_method, progress_message, process,
}
use rockets.JsonRpc.CancellableReceiver.Events.{responses, notifications, Interleaves}
use rockets.JsonRpc.CancellableReceiver.Progress.{process-Interleaves}

abbrev progress : Value
progress = (toy []).make (
    object (
      (bytes "id", vunsigned 3)
      ∷ (bytes "amount", vfloat)
      ∷ (bytes "operation", vstring (bytes "half"))
      ∷ []))

abbrev result : Value
result = vunsigned 7

abbrev json : JsonLib
json = toy (result ∷ progress ∷ [])

abbrev notification : Value
notification = (toy []).make (
    object (
      (bytes "jsonrpc", vstring (bytes "2.0"))
      ∷ (bytes "method", vstring (bytes "progress"))
      ∷ (bytes "params", progress)
      ∷ []))

-- Half way, and the result; the application counts its calls.
abbrev acted : Acted Value ℕ
acted = record {
  events = progresses (bytes "half") vfloat ∷ responds (success (bytes "7")) ∷ [];
  cancel = none;
}

abbrev work : CancellableCallback Value ℕ ℕ
work request n = (acted, 1)

abbrev no_methods : CancellableMethods Value ℕ ℕ
no_methods = record { cancellable = []; asynchronous = record { delayed = []; immediate = [] } }

abbrev with_work : CancellableMethods Value ℕ ℕ
with_work = record no_methods { cancellable = (bytes "work", work) ∷ [] }

work_bound : register_method (bytes "work") work no_methods ≡ ok with_work
unfolding register_method verify_cancellable_method_name verify_valid_method_name begins_with put
    text_eq
work_bound = refl

abbrev reply : Value
reply = result_response json result (vunsigned 3)

abbrev only_reply : Outputs Value ℕ ℕ
only_reply = replies 30 reply ∷ []

abbrev no_requests : Requests Value ℕ ℕ
no_requests = []

replied_once :
    process_cancellable json (vunsigned 3) 30 (responses acted.events) none no_requests
    ≡ (ok only_reply, no_requests)
unfolding process_cancellable set_cancel_of set_cancel respond_all respond_to_request reply_of
    make_response is_error make_text_response start put erase find read text_eq
replied_once = refl

told_half : notifications json (vunsigned 3) acted.events ≡ ok (json.dump notification ∷ [])
unfolding progress_message make_notification_with dump_text parse read text_eq
told_half = refl

abbrev request : Request
request = record { message = []; client_id = 5 }

process-Interleaves_example :
    (sent : List (Sent Value ℕ ℕ)) × (process json with_work
        (vunsigned 3)
        (bytes "work")
        request
        30
        (0, no_requests)
      ≡ (ok sent, (1, no_requests)))
    × Interleaves json 5 only_reply (json.dump notification ∷ []) sent
process-Interleaves_example =
    process-Interleaves json (bytes "work") work no_methods with_work (vunsigned 3) request 30 0 1
      acted no_requests no_requests only_reply (json.dump notification ∷ []) work_bound refl
      replied_once told_half

-- A client whose next request is the third cancels it.
abbrev client : Requester (Response → Outcome Text)
client = record { pending_requests = []; last_id = 3 }

abbrev no_params : ℕ → Text
no_params n = []

abbrev as_text : Text → Option Text
as_text t = some t

abbrev carrying : JsonLib
carrying = toy (cancel_object (toy []) 3 ∷ [])

abbrev in_work : Requests Value ℕ ℕ
in_work = (vunsigned 3, (application 33, some 30)) ∷ []

three_made :
    request_json carrying (bytes "work") [] 3 ≡ some (make_request carrying (bytes "work") 3)
unfolding request_json
three_made = refl

three_in_work : find (vunsigned 3) in_work ≡ some (application 33, some 30)
unfolding find text_eq
three_in_work = refl

three_carried : carrying.parse (get_cancel_json carrying 3) ≡ some (cancel_object carrying 3)
unfolding get_cancel_json read text_eq
three_carried = refl

process-cancel_example :
    let (_, id, _) = request_typed carrying no_params as_text (bytes "work") 0 client in
    (id ≡ ok 3)
    × (process carrying with_work
          (make_null carrying)
          (bytes "cancel")
          (record { message = get_cancel_json carrying 3; client_id = 5 })
          40
          (0, in_work)
        ≡ (
          ok (
              calls (cancels 33 (some 30) (number carrying 3))
              ∷ calls (replies 40 (make_null carrying))
              ∷ []),
          (0, erase (number carrying 3) in_work),
        ))
process-cancel_example =
    process-cancel carrying (toy-laws (cancel_object (toy []) 3 ∷ [])) no_params as_text
      (bytes "work") 0 client (make_request carrying (bytes "work") 3) with_work 5 40 0 33 (some 30)
      in_work (ground arith) three_made refl three_in_work three_carried
