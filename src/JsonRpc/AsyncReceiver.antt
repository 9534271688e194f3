-- ===== src/JsonRpc/AsyncReceiver.antt =====
-- rockets/jsonrpc/asyncReceiverImpl.h, asyncReceiver.h and asyncReceiver.cpp: methods that answer when
-- they like. An action calls its callback at most once: before it returns, or later.
use rockets.Prelude.{Text, Bool, ◌||◌, Option, none, some, List, is_some}
use rockets.Prelude.Assoc.{find, put, text_key}
use rockets.Prelude.Result.{Exception, Result, ok, throw}
use rockets.Prelude.Result
use rockets.Prelude.Act.{Act, pure, lift, ◌>>=◌}
use rockets.Json.{JsonLib}
use rockets.Http.Types.{Future, ready, pending}
use rockets.JsonRpc.Message.{Request, Response, invalid_params}
use rockets.JsonRpc.Processor.{Answer, now, later, process, dump_reply, verify_valid_method_name}
use rockets.JsonRpc.Cancellable.{reply_of}
use rockets.JsonRpc.Receiver.{Methods, reply_to}
use rockets.JsonRpc.Receiver

abbrev pub DelayedResponseCallback : Type 0 → Type 0
DelayedResponseCallback A = Request → Act A (Answer Response)

-- The methods of AsyncReceiverImpl, and those of its base class.
pub record AsyncMethods (A : Type 0) : Type 0 where
  pub delayed : List (Text × DelayedResponseCallback A)
  pub immediate : Methods A

unfoldable pub answer_to : (lib : JsonLib) → lib.Json → Answer Response → Result (Answer lib.Json)
unfolding reply_to
answer_to lib id (now rep) = reply_to lib id rep
answer_to lib id later = ok later

-- What the callback is called with when an action answers later: the text of the reply.
unfoldable pub late_reply : (lib : JsonLib) → lib.Json → Response → Result Text
unfolding reply_of dump_reply
late_reply lib id rep = Result.◌>>=◌ (reply_of lib id rep) λ j. ok (dump_reply lib j)

-- The state of a future whose promise the callback of a request satisfies.
abbrev pub future_of {ℓ} : {X : Type ℓ} → Answer X → Future X
future_of (now x) = ready x
future_of later = pending

module _ {A : Type 0} where
  -- AsyncReceiverImpl::registerMethod, and with it AsyncReceiver::bindAsync
  unfoldable pub register_method :
      Text → DelayedResponseCallback A → AsyncMethods A → Result (AsyncMethods A)
  unfolding verify_valid_method_name put
  register_method method action methods =
      Result.◌>>=◌ (verify_valid_method_name method)
        λ _. ok (record methods { delayed = put method action methods.delayed })

  unfoldable pub is_registered_method_name : AsyncMethods A → Text → Bool
  unfolding find Receiver.is_registered_method_name
  is_registered_method_name methods method =
      is_some (find method methods.delayed)
      || Receiver.is_registered_method_name methods.immediate method

  -- The template over a type of parameters.
  unfoldable pub bind_async_params :
      {P : Type 0} → (Text → Option P) → (P → Act A (Answer Response)) → DelayedResponseCallback A
  bind_async_params from_json action request = elim (from_json request.message) [
    | none ↦ pure (now invalid_params)
    | some params ↦ action params
  ]

  module _ (lib : JsonLib) (methods : AsyncMethods A) where
    -- AsyncReceiverImpl::process
    unfoldable pub run : lib.Json → Text → Request → Act A (Answer lib.Json)
    unfolding find Receiver.run answer_to
    run id method request = elim (find method methods.delayed) [
      | none ↦ Receiver.run lib methods.immediate id method request
      | some action ↦ do answer ← action request; lift (answer_to lib id answer)
    ]

    -- AsyncReceiver::process, with the wait for a request of a batch
    unfoldable pub process_async : (lib.Json → Act A lib.Json) → Request → Act A (Answer Text)
    unfolding is_registered_method_name run process
    process_async await request =
        process lib (λ s. is_registered_method_name methods) run await request

    -- processAsync
    unfoldable pub process_future : (lib.Json → Act A lib.Json) → Request → Act A (Future Text)
    unfolding process_async
    process_future await request = do answer ← process_async await request; pure (future_of answer)
