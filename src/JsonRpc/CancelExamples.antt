-- ===== src/JsonRpc/CancelExamples.antt =====
-- Tests of the cancellable receiver: two clients, and the requests 2 and 3.
use rockets.Prelude.{
  if◌then◌else◌, ℕ, ◌≡◌, ◌≤◌, List, refl, Text, bytes, text_eq, Bool, true, false, arith, none,
  some, [], ◌∷◌, is_some,
}
use rockets.Prelude.Assoc.{find, erase, put}
use rockets.Prelude.Result.{ok}
use rockets.Json.{JsonLib, object, field}
use rockets.Json.Toy.{Value, vunsigned, vinteger, vstring, vnull, toy, read, value_eq}
use rockets.JsonRpc.Message.{
  success, result_response, make_response, is_error, make_text_response, make_error_response,
  error_response,
}
use rockets.JsonRpc.Cancellable.{
  Requests, Outputs, replies, cancels, at_once, application, start, call_cancel, reply_of,
  respond_to_request, process_cancellable, process_cancel, cancel_request, set_cancel, abort,
  request_aborted,
}
use rockets.JsonRpc.Cancellable.Table.{replied}
use rockets.JsonRpc.Cancellable.Runs.{
  Run, stop, starts, responds, cancelled, sets, count, answers-once,
}
use rockets.JsonRpc.Cancellable.Once.{
  process_cancel-drops, cancel_request-twice, same_id-dropped, process_cancellable-stale,
}

abbrev seven : Value
seven = vunsigned 7

-- The parameters of a cancel notification for the request 3.
abbrev cancel_params : Value
cancel_params = (toy []).make (object ((bytes "id", vunsigned 3) ∷ []))

abbrev json : JsonLib
json = toy (seven ∷ cancel_params ∷ [])

abbrev cancel_message : Text
cancel_message = json.dump cancel_params

-- Callbacks and cancel functions are numbers.
abbrev in_work : Requests Value ℕ ℕ
in_work = (vunsigned 2, (at_once, some 20)) ∷ (vunsigned 3, (application 33, some 30)) ∷ []

reply_made :
    reply_of json (vunsigned 3) (success (bytes "7"))
    ≡ ok (result_response json seven (vunsigned 3))
unfolding reply_of make_response is_error make_text_response read text_eq
reply_made = refl

three_waits : find (vunsigned 3) in_work ≡ some (application 33, some 30)
unfolding find text_eq
three_waits = refl

three_there : is_some (find (vunsigned 3) in_work) ≡ true
unfolding find text_eq
three_there = refl

cancel_read : json.parse cancel_message ≡ some cancel_params
unfolding read text_eq
cancel_read = refl

same_id-dropped_example :
    let both = start json (vunsigned 3) 40 (start json (vunsigned 3) 30 in_work) in
    let (sent, left) =
      respond_to_request json Bool.false (vunsigned 3) 40 (success (bytes "7")) both in
    (sent ≡ ok (replies 40 (result_response json seven (vunsigned 3)) ∷ []))
    × (respond_to_request json Bool.false (vunsigned 3) 30 (success (bytes "8")) left
        ≡ (ok [], left))
same_id-dropped_example =
    same_id-dropped json (vunsigned 3) (result_response json seven (vunsigned 3)) 30 40
      (success (bytes "8")) (success (bytes "7")) in_work reply_made

process_cancellable-stale_example :
    let (sent, left) =
      process_cancellable json (vunsigned 3) 30 (success (bytes "7") ∷ []) (some 33) in_work in
    (sent ≡ ok (replies 30 (result_response json seven (vunsigned 3)) ∷ []))
    × (find (vunsigned 3) left ≡ some (application 33, none))
process_cancellable-stale_example =
    process_cancellable-stale json (vunsigned 3) (result_response json seven (vunsigned 3)) 30
      (success (bytes "7")) [] 33 in_work reply_made

process_cancel-drops_example :
    let (outputs, left) = process_cancel json vnull cancel_message in_work in
    (outputs ≡ ok (cancels 33 (some 30) (vunsigned 3) ∷ []))
    × (respond_to_request json Bool.false (vunsigned 3) 30 (success (bytes "7")) left
        ≡ (ok [], left))
    × ((k : Value) → find k left ≡ (if value_eq.beq (vunsigned 3) k then none else find k in_work))
process_cancel-drops_example =
    process_cancel-drops json vnull (vunsigned 3) cancel_params cancel_message 33 (some 30) 30
      (success (bytes "7")) in_work cancel_read (unfold field text_eq in refl) refl three_waits

abbrev abort_three : Value
abort_three =
    error_response json
      (json.make (
        object (
          (bytes "code", vinteger request_aborted.code)
          ∷ (bytes "message", vstring request_aborted.message)
          ∷ [])))
      (vunsigned 3)

-- The action of the request 3 is cancelled while it runs.
told : abort json {R = ℕ} {K = ℕ} 30 (vunsigned 3) ≡ ok (replies 30 abort_three ∷ [])
unfolding abort make_error_response
told = refl

cancel_request-twice_example :
    let started : Requests Value ℕ ℕ = start json (vunsigned 3) 30 [] in
    let (first, left) = cancel_request json (vunsigned 3) (find (vunsigned 3) started) started in
    let (second, last) =
      respond_to_request json Bool.false
        (vunsigned 3)
        30
        (success (bytes "7"))
        (set_cancel json (vunsigned 3) (some 33) left) in
    (first ≡ ok (replies 30 abort_three ∷ []))
    × (second ≡ ok (replies 30 (result_response json seven (vunsigned 3)) ∷ []))
cancel_request-twice_example =
    cancel_request-twice json (vunsigned 3) abort_three (result_response json seven (vunsigned 3))
      30 33 (success (bytes "7")) [] told reply_made

-- Requests with numbers for ids.
ids_differ : (p q : ℕ) → value_eq.beq (vunsigned p) (vunsigned q) ≡ true → p ≡ q
unfolding text_eq
ids_differ p q same = ground arith

abbrev Numbered : List ℕ → Outputs Value ℕ ℕ → Requests Value ℕ ℕ → Type 0
Numbered ps outs s = Run json (λ p. vunsigned p) [] s ps outs

-- The response to the request 3, which is cancelled, comes too late.
too_late : Numbered [] [] []
unfolding respond_to_request find text_eq
too_late = responds 3 false (success (bytes "7")) refl stop refl

abbrev three_alone : Requests Value ℕ ℕ
three_alone = (vunsigned 3, (application 33, some 3)) ∷ []

three_cancelled : Numbered [] (cancels 33 (some 3) (vunsigned 3) ∷ []) three_alone
unfolding process_cancel cancel_request call_cancel find erase read field text_eq
three_cancelled = cancelled vnull cancel_message refl too_late refl

abbrev all_outputs : Outputs Value ℕ ℕ
all_outputs =
    replies 2 (result_response json seven (vunsigned 2)) ∷ cancels 33 (some 3) (vunsigned 3) ∷ []

two_answered : Numbered [] all_outputs (put (vunsigned 2) (at_once, some 2) three_alone)
unfolding respond_to_request reply_of make_response make_text_response is_error find erase put read
    text_eq
two_answered = responds 2 false (success (bytes "7")) refl three_cancelled refl

whole_run : Numbered (3 ∷ 2 ∷ []) all_outputs []
unfolding start set_cancel find put text_eq
whole_run = starts 3 (sets 3 (some 33) refl (starts 2 two_answered))

answers-once_example : replied 3 all_outputs ≤ count 3 (3 ∷ 2 ∷ [])
answers-once_example = answers-once json (λ p. vunsigned p) ids_differ 3 whole_run
