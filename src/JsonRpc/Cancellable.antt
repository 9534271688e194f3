-- ===== src/JsonRpc/Cancellable.antt =====
-- rockets/jsonrpc/cancellableReceiverImpl.h: the table of the requests in work, the replies to them
-- and their cancellation. `R` are the callbacks of requests, `K` the functions by which the
-- application cancels; the keys of the table are told apart by `operator<` of the JSON library, of
-- which `e` has the equivalence.
pub mod Once
pub mod Table
pub mod Steps
pub mod Runs
use rockets.Prelude.{
  Text, text_eq, bytes, Bool, true, false, not, ◌&&◌, ◌||◌, Option, none, some, List, [], ◌∷◌, ◌++◌,
  is_some, if◌then◌else◌,
}
use rockets.Prelude.Assoc.{Eq, find, put, erase, text_key}
use rockets.Prelude.Result.{Result, ok, throw, invalid_argument, bad_function_call}
use rockets.Prelude.Result
use rockets.Prelude.Act.{Act, pure, ◌>>=◌}
use rockets.Json.{JsonLib}
use rockets.Json.Access.{is_null, make_null, member}
use rockets.JsonRpc.ErrorCode
use rockets.JsonRpc.Message.{
  Error, Response, make_error, make_response, make_error_response, begins_with,
}
use rockets.JsonRpc.Processor.{verify_valid_method_name}

-- The first function of a request, which calls its argument at once, and that of the application.
pub data CancelCallback (K : Type 0) : Type 0 where
  at_once : CancelCallback K
  application : K → CancelCallback K

-- A request in work: how it is cancelled and answered. The callback is none where `operator[]` made
-- the entry.
abbrev pub Entry : Type 0 → Type 0 → Type 0
Entry R K = CancelCallback K × Option R

-- What is called: the callback of a request with a reply, and a function of the application with
-- the callback and the id that its argument will answer.
pub data Output (J R K : Type 0) : Type 0 where
  replies : R → J → Output J R K
  cancels : K → Option R → J → Output J R K

abbrev pub request_aborted : Error
request_aborted = make_error (bytes "Request aborted") ErrorCode.request_aborted

-- CancellableReceiverImpl::verifyValidMethodName
unfoldable pub verify_cancellable_method_name : Text → Result (Unit {0})
unfolding begins_with verify_valid_method_name
verify_cancellable_method_name method =
    if begins_with method (bytes "cancel") || begins_with method (bytes "progress")
    then throw
        (invalid_argument (bytes "Method names starting with 'cancel' or 'progress' are reserved."))
    else verify_valid_method_name method

abbrev pub Requests : Type 0 → Type 0 → Type 0 → Type 0
Requests J R K = List (J × Entry R K)

abbrev pub Outputs : Type 0 → Type 0 → Type 0 → Type 0
Outputs J R K = List (Output J R K)

-- `respond(json())` or `respond(makeResponse(rep, requestID))`
unfoldable pub reply_of : (lib : JsonLib) → lib.Json → Response → Result lib.Json
unfolding make_response
reply_of lib id rep = if is_null (lib.view id) then ok (make_null lib) else make_response lib rep id

module _ (lib : JsonLib) ⦃e : Eq lib.Json⦄ {R K : Type 0} where
  open lib use {Json, view}

  -- The temporary entry of `process`.
  unfoldable pub start : Json → R → Requests Json R K → Requests Json R K
  unfolding put
  start id respond requests = put id (at_once, some respond) requests

  -- The callback that the action is given: `locked` says that another thread, or a cancellation in
  -- this one, holds the mutex, so that `try_lock` fails.
  unfoldable pub respond_to_request :
      Bool → Json → R → Response → Act (Requests Json R K) (Outputs Json R K)
  unfolding reply_of find erase
  respond_to_request locked id respond rep requests =
      if locked || not (is_some (find id requests)) then (ok [], requests) else (
        Result.◌>>=◌ (reply_of lib id rep) λ reply. ok (replies respond reply ∷ []),
        erase id requests,
      )

  -- The responses that an action gives one after the other.
  unfoldable pub respond_all : Json → R → List Response → Act (Requests Json R K) (Outputs Json R K)
  unfolding respond_to_request
  respond_all id respond [] = pure []
  respond_all id respond (rep ∷ reps) = do
    first ← respond_to_request false id respond rep
    rest ← respond_all id respond reps
    pure (first ++ rest)

  abbrev pub entry_callback : Option (Entry R K) → Option R
  entry_callback none = none
  entry_callback (some entry) = entry.1

  -- `requests[requestID].first = cancelFunc`, if there is a function
  unfoldable pub set_cancel : Json → Option K → Requests Json R K → Requests Json R K
  unfolding find put
  set_cancel id none requests = requests
  set_cancel id (some cancel) requests =
      put id (application cancel, entry_callback (find id requests)) requests

  unfoldable pub set_cancel_of :
      {X : Type 0} → Json → Option K → Result X × Requests Json R K → Result X × Requests Json R K
  unfolding set_cancel
  set_cancel_of id cancel (ok sent, requests) = (ok sent, set_cancel id cancel requests)
  set_cancel_of id cancel (throw x, requests) = (throw x, requests)

  -- `process` of a cancellable method, whose action answers with `early` before it returns
  -- `cancel`.
  unfoldable pub process_cancellable :
      Json → R → List Response → Option K → Act (Requests Json R K) (Outputs Json R K)
  unfolding start respond_all set_cancel_of
  process_cancellable id respond early cancel requests =
      set_cancel_of id cancel (respond_all id respond early (start id respond requests))

  -- The argument that a cancel function is given, called: an error that the request was aborted.
  unfoldable pub abort : R → Json → Result (Outputs Json R K)
  unfolding make_error_response
  abort respond id =
      Result.◌>>=◌ (make_error_response lib request_aborted id)
        λ reply. ok (replies respond reply ∷ [])

  unfoldable pub call_cancel : Json → Entry R K → Result (Outputs Json R K)
  unfolding abort
  call_cancel id (application cancel, respond) = ok (cancels cancel respond id ∷ [])
  call_cancel id (at_once, some respond) = abort respond id
  call_cancel id (at_once, none) = throw bad_function_call

  -- The entry is erased behind the call, which may throw.
  unfoldable pub cancel_request :
      Json → Option (Entry R K) → Act (Requests Json R K) (Outputs Json R K)
  unfolding call_cancel erase
  cancel_request id none requests = (ok [], requests)
  cancel_request id (some entry) requests = elim (call_cancel id entry) [
    | throw x ↦ (throw x, requests)
    | ok outputs ↦ (ok outputs, erase id requests)
  ]

  -- processCancel; parameters that are no JSON have no "id".
  unfoldable pub process_cancel : Json → Text → Act (Requests Json R K) (Outputs Json R K)
  unfolding cancel_request find
  process_cancel id params requests = elim (lib.parse params) [
    | none ↦ (ok [], requests)
    | some j ↦ elim (member (bytes "id") (view j)) [
      | none ↦ (ok [], requests)
      | some request_id ↦
          if is_null (view id)
          then cancel_request request_id (find request_id requests) requests
          else (ok [], requests)
    ]
  ]
