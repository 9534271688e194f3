-- ===== src/Ws/Client.antt =====
-- rockets/ws/client.cpp: a WebSocket client, with the promise of its connection. Its connection object
-- has the address 0; its message handler knows no other connections.
pub mod Outcome
pub mod Examples
use rockets.Prelude.{
  ℕ, Text, bytes, Bool, true, false, Option, none, some, List, [], ◌∷◌, is_some, if◌then◌else◌,
}
use rockets.Prelude.Int.{ℤ, pos}
use rockets.Prelude.Result.{
  Exception, Result, ok, throw, runtime_error, future_error, undefined_behaviour, ◌>>=◌,
}
use rockets.Poll.{Notice, Pollargs, PollDescriptors, add, update, remove, set_listener}
use rockets.ClientContext.{Environment, Context, ConnectInfo}
use rockets.ClientContext
use rockets.Ws.Types.{Response, Lws, Fragment}
use rockets.Ws.Connection.{Connection, write_messages}
use rockets.Ws.Connection
use rockets.Ws.MessageHandler.{Callbacks, State}
use rockets.Ws.MessageHandler

-- `std::promise<void>`
pub data Promise : Type 0 where
  unset fulfilled : Promise
  failed : Exception → Promise

pub record Client (W A : Type 0) : Type 0 where
  pub promise : Promise
  pub future_retrieved : Bool
  pub connection : Option (Connection W)
  pub buffer : Text
  pub callbacks : Callbacks A
  pub app : A
  pub context : Context
  pub poll_descriptors : PollDescriptors

-- tryToSetException: a promise that is satisfied stays.
unfoldable pub try_to_set_exception : Exception → Promise → Promise
try_to_set_exception e unset = failed e
try_to_set_exception e fulfilled = fulfilled
try_to_set_exception e (failed f) = failed f

-- set_value()
unfoldable pub set_value : Promise → Result Promise
set_value unset = ok fulfilled
set_value _ = throw future_error

abbrev pub connection_error_message : Option Text → Text
connection_error_message none = bytes "unsupported websocket protocol"
connection_error_message (some message) = message

-- The reasons of `lws_callback_reasons` that concern a client, with what `in` points to.
pub data Reason : Type 0 where
  client_established client_writeable other_reason : Reason
  client_connection_error : Option Text → Reason
  client_receive : Fragment → Reason
  add_poll_fd del_poll_fd change_mode_poll_fd : Pollargs → Reason

module _ (lws : Lws) {A : Type 0} where
  open lws use {Wsi}

  -- A call through `connection`, a null pointer before a connection was started.
  unfoldable pub with_connection :
      (Connection Wsi → Connection Wsi) → Client Wsi A → Result (Client Wsi A)
  with_connection f c = elim c.connection [
    | none ↦ throw undefined_behaviour
    | some connection ↦ ok (record c { connection = some (f connection) })
  ]

  -- The connection, with what libwebsockets gave, or the exception into the promise.
  unfoldable pub connected : Result ConnectInfo → Option Wsi → Client Wsi A → Client Wsi A
  unfolding try_to_set_exception
  connected (throw e) given c = record c { promise = try_to_set_exception e c.promise }
  connected (ok info) (some w) c = record c { connection = some (record { out = []; wsi = w }) }
  connected (ok info) none c = c

  -- get_future(), which throws when it is called again
  unfoldable pub get_future : Client Wsi A → Result (Client Wsi A)
  get_future c =
      if c.future_retrieved then throw future_error else ok (record c { future_retrieved = true })

  -- connect; `given` is what lws_client_connect_via_info gives.
  unfoldable pub connect :
      Environment → Text → Text → Option Wsi → Client Wsi A → Result (Client Wsi A)
  unfolding ClientContext.connect connected get_future
  connect env uri protocol given c =
      let (result, context) = ClientContext.connect env uri protocol (is_some given) c.context in
      get_future (connected result given (record c { context = context }))

  unfoldable pub send_text : Text → Client Wsi A → Result (Client Wsi A)
  unfolding with_connection Connection.send_text
  send_text message c = with_connection (Connection.send_text lws message) c

  unfoldable pub send_binary : Text → Client Wsi A → Result (Client Wsi A)
  unfolding with_connection Connection.send_binary
  send_binary message c = with_connection (Connection.send_binary lws message) c

  unfoldable pub handle_text : Option (Text → ℕ → A → Response × A) → Client Wsi A → Client Wsi A
  handle_text callback c = record c { callbacks = record c.callbacks { callback_text = callback } }

  unfoldable pub handle_binary : Option (Text → ℕ → A → Response × A) → Client Wsi A → Client Wsi A
  handle_binary callback c = record c {
    callbacks = record c.callbacks { callback_binary = callback };
  }

  unfoldable pub set_socket_listener : Bool → Client Wsi A → List Notice × Client Wsi A
  unfolding set_listener
  set_socket_listener listener c =
      let (notices, poll) = set_listener listener c.poll_descriptors in
      (notices, record c { poll_descriptors = poll })

  -- process and processSocket, where they catch a proxy_connection_error
  unfoldable pub proxy_failed : Exception → Client Wsi A → Client Wsi A
  unfolding try_to_set_exception
  proxy_failed e c = record c { promise = try_to_set_exception e c.promise }

  -- messageHandler.handleMessage(connection, …)
  unfoldable pub receive : Fragment → Client Wsi A → Result (Client Wsi A)
  unfolding MessageHandler.handle_message
  receive fragment c = elim c.connection [
    | none ↦ throw undefined_behaviour
    | some connection ↦
        let s : State Wsi A =
          MessageHandler.handle_message lws c.callbacks 0 fragment
            (record { buffer = c.buffer; listed = []; objects = λ k. connection; app = c.app }) in
        ok (record c { buffer = s.buffer; connection = some (s.objects 0); app = s.app })
  ]

  with_poll :
      (PollDescriptors → List Notice × PollDescriptors)
      → Client Wsi A
      → Result (List Notice × Client Wsi A)
  with_poll f c =
      let (notices, poll) = f c.poll_descriptors in
      ok (notices, record c { poll_descriptors = poll })

  quietly : Result (Client Wsi A) → Result (List Notice × Client Wsi A)
  quietly result = do c ← result; ok ([], c)

  -- callback_ws, where libwebsockets gives a protocol; it returns 0.
  unfoldable pub callback_ws : Reason → Client Wsi A → Result (List Notice × Client Wsi A)
  unfolding set_value try_to_set_exception receive with_connection write_messages with_poll quietly
      add remove update
  callback_ws client_established c = do
    promise ← set_value c.promise
    ok ([], record c { promise = promise })
  callback_ws (client_connection_error message) c = ok (
    [],
    record c {
      promise = try_to_set_exception (runtime_error (connection_error_message message)) c.promise;
    },
  )
  callback_ws (client_receive fragment) c = quietly (receive fragment c)
  callback_ws client_writeable c = quietly (with_connection (write_messages lws) c)
  callback_ws (add_poll_fd pa) c = with_poll (add pa) c
  callback_ws (del_poll_fd pa) c = with_poll (remove pa) c
  callback_ws (change_mode_poll_fd pa) c = with_poll (update pa) c
  callback_ws other_reason c = ok ([], c)
