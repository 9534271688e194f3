-- ===== src/JsonRpc/Receiver.antt =====
-- rockets/jsonrpc/receiver.h, receiver.cpp and receiverImpl.h: the methods of a synchronous receiver.
-- `A` is the state of the application, which its callbacks may change.
pub mod Laws
use rockets.Prelude.{
  ℕ, Text, bytes, Bool, true, false, Option, none, some, List, [], ◌∷◌, is_some, if◌then◌else◌,
}
use rockets.Prelude.Assoc.{find, put, text_key}
use rockets.Prelude.Int.{ℤ}
use rockets.Prelude.Result.{Exception, Result, ok, throw, bad_function_call, response_error}
use rockets.Prelude.Result
use rockets.Prelude.Act.{Act, pure, lift, ◌>>=◌}
use rockets.Json.{JsonLib}
use rockets.Json.Access.{is_null, make_null}
use rockets.JsonRpc.Message.{
  Request, Response, success, failure, make_error, invalid_params, make_response,
}
use rockets.JsonRpc.Processor.{Answer, now, later, process, verify_valid_method_name}

abbrev pub ResponseCallback : Type 0 → Type 0
ResponseCallback A = Request → Act A Response

abbrev pub Methods : Type 0 → Type 0
Methods A = List (Text × ResponseCallback A)

-- The reply to a request with an id, and null to a notification.
unfoldable pub reply_to : (lib : JsonLib) → lib.Json → Response → Result (Answer lib.Json)
unfolding make_response
reply_to lib id rep =
    if is_null (lib.view id)
    then ok (now (make_null lib))
    else Result.◌>>=◌ (make_response lib rep id) λ j. ok (now j)

unfoldable pub text_of : Answer Text → Text
text_of (now s) = s
text_of later = []

module _ {A : Type 0} where
  -- ReceiverImpl::registerMethod, and with it Receiver::bind
  unfoldable pub register_method : Text → ResponseCallback A → Methods A → Result (Methods A)
  unfolding verify_valid_method_name put
  register_method method action methods =
      Result.◌>>=◌ (verify_valid_method_name method) λ _. ok (put method action methods)

  unfoldable pub is_registered_method_name : Methods A → Text → Bool
  unfolding find
  is_registered_method_name methods method = is_some (find method methods)

  -- `_methods[method](request)`: an absent method would be an empty function.
  unfoldable pub call_method : Methods A → Text → Request → Act A Response
  unfolding find
  call_method methods method request = elim (find method methods) [
    | none ↦ lift (throw bad_function_call)
    | some action ↦ action request
  ]

  -- ReceiverImpl::process
  unfoldable pub run :
      (lib : JsonLib) → Methods A → lib.Json → Text → Request → Act A (Answer lib.Json)
  unfolding call_method reply_to
  run lib methods id method request = do
    response ← call_method methods method request
    lift (reply_to lib id response)

  -- The two `connect` without parameters and the one with those of the request.
  unfoldable pub connect_void : Act A (Unit {0}) → ResponseCallback A
  connect_void action request = do done ← action; pure (success (bytes "\"OK\""))

  unfoldable pub connect_notify : (Request → Act A (Unit {0})) → ResponseCallback A
  connect_notify action request = do done ← action request; pure (success (bytes "\"OK\""))

  module _ {P : Type 0} (from_json : Text → Option P) where
    -- The templates over a type of parameters: `from_json` fails, or gives the parameters.
    unfoldable pub connect_params : (P → Act A (Unit {0})) → ResponseCallback A
    connect_params action request = elim (from_json request.message) [
      | none ↦ pure invalid_params
      | some params ↦ do done ← action params; pure (success (bytes "\"OK\""))
    ]

    unfoldable pub bind_params : (P → Act A Response) → ResponseCallback A
    bind_params action request = elim (from_json request.message) [
      | none ↦ pure invalid_params
      | some params ↦ action params
    ]

  module _ {R : Type 0} (to_json : R → Text) where
    -- catch (const response_error& e)
    unfoldable pub respond_value : Result R × A → Result Response × A
    respond_value (ok ret, s) = (ok (success (to_json ret)), s)
    respond_value (throw (response_error what code), s) = (ok (failure (make_error what code)), s)
    respond_value (throw e, s) = (throw e, s)

    unfoldable pub bind_value : Act A R → ResponseCallback A
    unfolding respond_value
    bind_value action request s = respond_value (action s)

  module _ {P R : Type 0} (from_json : Text → Option P) (to_json : R → Text) where
    unfoldable pub bind_typed : (P → Act A R) → ResponseCallback A
    unfolding respond_value
    bind_typed action request s = elim (from_json request.message) [
      | none ↦ pure invalid_params s
      | some params ↦ respond_value to_json (action params s)
    ]

  -- Receiver::process: the callback of the processor assigns the result. A synchronous method never
  -- keeps its callback, so nothing waits; the text is empty where the callback is not called.
  unfoldable pub receive : (lib : JsonLib) → Methods A → Request → Act A Text
  unfolding text_of
  receive lib methods request = do
    answer ←
        process lib (λ s. is_registered_method_name methods) (run lib methods)
          (λ j. lift (throw Exception.future_error)) request
    pure (text_of answer)
