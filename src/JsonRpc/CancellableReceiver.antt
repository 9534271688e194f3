-- ===== src/JsonRpc/CancellableReceiver.antt =====
-- rockets/jsonrpc/cancellableReceiverImpl.h, cancellableReceiver.h and cancellableReceiver.cpp: the
-- dispatch on the method, and the actions, which respond and tell of their progress before they
-- return. What an action does later is a step of Cancellable/Runs. Actions are taken not to throw.
pub mod Events
pub mod Progress
use rockets.Prelude.{
  ℕ, Text, bytes, text_eq, Bool, false, ◌||◌, Option, none, some, List, [], ◌∷◌, ◌++◌, map, is_some,
  if◌then◌else◌,
}
use rockets.Prelude.Assoc.{Eq, find, put, text_key}
use rockets.Prelude.Result.{Result, ok, throw}
use rockets.Prelude.Result
use rockets.Prelude.Act.{Act, pure, lift, ◌>>=◌}
use rockets.Json.{JsonLib, object}
use rockets.Json.Access.{text, make_null}
use rockets.JsonRpc.Message.{Request, Response, invalid_params, make_notification_with}
use rockets.JsonRpc.Processor.{Answer, now, later}
use rockets.JsonRpc.AsyncReceiver.{AsyncMethods}
use rockets.JsonRpc.AsyncReceiver
use rockets.JsonRpc.Cancellable.{
  Requests, Outputs, Output, replies, start, respond_to_request, set_cancel_of, process_cancel,
  verify_cancellable_method_name,
}

-- What an action calls before it returns: its response, and the update of its progress, with the
-- amount as a value of the library.
pub data Event (J : Type 0) : Type 0 where
  responds : Response → Event J
  progresses : Text → J → Event J

-- What leaves the receiver: a call, or a text to a client.
pub data Sent (J R K : Type 0) : Type 0 where
  calls : Output J R K → Sent J R K
  sends : Text → ℕ → Sent J R K

pub record Acted (J K : Type 0) : Type 0 where
  pub events : List (Event J)
  pub cancel : Option K

abbrev pub CancellableCallback : Type 0 → Type 0 → Type 0 → Type 0
CancellableCallback J K A = Request → A → Acted J K × A

-- The methods of CancellableReceiverImpl, and those of its base class.
pub record CancellableMethods (J K A : Type 0) : Type 0 where
  pub cancellable : List (Text × CancellableCallback J K A)
  pub asynchronous : AsyncMethods A

module _ {J K A : Type 0} where
  -- CancellableReceiverImpl::registerMethod, and with it CancellableReceiver::bindAsync
  unfoldable pub register_method :
      Text
      → CancellableCallback J K A
      → CancellableMethods J K A
      → Result (CancellableMethods J K A)
  unfolding verify_cancellable_method_name put
  register_method method action methods =
      Result.◌>>=◌ (verify_cancellable_method_name method)
        λ _. ok (record methods { cancellable = put method action methods.cancellable })

  unfoldable pub is_registered_method_name : CancellableMethods J K A → Text → Bool
  unfolding find text_eq AsyncReceiver.is_registered_method_name
  is_registered_method_name methods method =
      is_some (find method methods.cancellable)
      || text_eq method (bytes "cancel")
      || AsyncReceiver.is_registered_method_name methods.asynchronous method

  -- The template over a type of parameters.
  unfoldable pub bind_async_params :
      {P : Type 0} → (Text → Option P) → (P → ℕ → A → Acted J K × A) → CancellableCallback J K A
  bind_async_params from_json action request a = elim (from_json request.message) [
    | none ↦ (record { events = responds invalid_params ∷ []; cancel = none }, a)
    | some params ↦ action params request.client_id a
  ]

-- What `progressFunc` sends.
unfoldable pub progress_message : (lib : JsonLib) → lib.Json → Text → lib.Json → Result Text
unfolding make_notification_with
progress_message lib id operation amount = make_notification_with lib (bytes "progress") (
    lib.dump_compact (
      lib.make (
        object (
          (bytes "id", id)
          ∷ (bytes "amount", amount)
          ∷ (bytes "operation", text lib operation)
          ∷ []))))

abbrev pub with_application : {A X S : Type 0} → A → Result X × S → Result X × (A × S)
with_application a (result, s) = (result, (a, s))

module _ (lib : JsonLib) ⦃e : Eq lib.Json⦄ {R K : Type 0} where
  open lib use {Json}

  unfoldable pub perform :
      ℕ → Json → R → Event Json → Act (Requests Json R K) (List (Sent Json R K))
  unfolding respond_to_request progress_message
  perform client id respond (responds rep) = do
    outputs ← respond_to_request lib false id respond rep
    pure (map calls outputs)
  perform client id respond (progresses operation amount) = do
    message ← lift (progress_message lib id operation amount)
    pure (sends message client ∷ [])

  unfoldable pub perform_all :
      ℕ → Json → R → List (Event Json) → Act (Requests Json R K) (List (Sent Json R K))
  unfolding perform
  perform_all client id respond [] = pure []
  perform_all client id respond (event ∷ events) = do
    first ← perform client id respond event
    rest ← perform_all client id respond events
    pure (first ++ rest)

  -- `process` of a method of this class, behind the call of its action.
  unfoldable pub after_action :
      ℕ → Json → R → Acted Json K → Act (Requests Json R K) (List (Sent Json R K))
  unfolding start perform_all set_cancel_of
  after_action client id respond acted requests =
      set_cancel_of lib id acted.cancel
        (perform_all client id respond acted.events (start lib id respond requests))

  abbrev answered : R → Answer Json → List (Sent Json R K)
  answered respond (now reply) = calls (replies respond reply) ∷ []
  answered respond later = []

  -- `process` of "cancel"
  unfoldable pub cancel_and_respond :
      Json → Request → R → Act (Requests Json R K) (List (Sent Json R K))
  unfolding process_cancel
  cancel_and_respond id request respond = do
    outputs ← process_cancel lib id request.message
    pure (map calls outputs ++ calls (replies respond (make_null lib)) ∷ [])

  -- CancellableReceiverImpl::process; the state is that of the application and the table.
  unfoldable pub process :
      {A : Type 0}
      → CancellableMethods Json K A
      → Json
      → Text
      → Request
      → R
      → Act (A × Requests Json R K) (List (Sent Json R K))
  unfolding find text_eq cancel_and_respond AsyncReceiver.run after_action
  process methods id method request respond (a, requests) =
      if text_eq method (bytes "cancel")
      then with_application a (cancel_and_respond id request respond requests)
      else elim (find method methods.cancellable) [
        | none ↦
            let (answer, a') = AsyncReceiver.run lib methods.asynchronous id method request a in
            (Result.◌>>=◌ answer λ reply. ok (answered respond reply), (a', requests))
        | some action ↦
            let (acted, a') = action request a in
            with_application a' (after_action request.client_id id respond acted requests)
      ]
