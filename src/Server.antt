-- ===== src/Server.antt =====
-- rockets/server.cpp: the state of a server, its REST endpoints and its WebSocket connections. A
-- connection of libwebsockets (`lws*`) and a connection object are known by numbers, the second
-- being the client id. The callbacks of the application are taken not to call the server.
pub mod Protocols
pub mod Broadcast
pub mod Clients
pub mod Steps
pub mod Exchange
pub mod Requests
pub mod Reserved
pub mod Invariant
pub mod Examples
use rockets.Prelude.{
  ℕ, ◌+◌, Text, bytes, text_eq, is_empty, Bool, true, false, Option, none, some, List, [], ◌∷◌,
  ◌++◌, length, map, memb, ◌==◌, if◌then◌else◌,
}
use rockets.Prelude.Assoc.{find, emplace, erase, nat_eq}
use rockets.Prelude.Result.{Result, ok, throw, invalid_argument, out_of_range, ◌>>=◌}
use rockets.Http.Types.{Method}
use rockets.Http.Lws.{Lws as HttpLws}
use rockets.Http.Connection.{Connection as HttpConnection}
use rockets.Http.Registry
use rockets.Http.Handler.{ConnectionHandler, Filter, RestFunc, set_filter}
use rockets.Poll.{PollDescriptors, Notice, set_listener}
use rockets.Ws.Types.{Response, Lws, Fragment}
use rockets.Ws.Connection.{Connection, enqueue_text, enqueue_binary, write_messages}
use rockets.Ws.MessageHandler.{
  Callbacks, State, Objects, modify, handle_open_connection, handle_close_connection,
  handle_message,
}

-- `broadcasts` counts the calls of `requestBroadcast`, by which libwebsockets, or each service
-- thread in turn, is asked for a write callback of every WebSocket connection.
pub record Server (http : HttpLws) (W A : Type 0) : Type 0 where
  pub handler : ConnectionHandler
  pub connections : List (ℕ × HttpConnection http)
  pub ws_connections : List (ℕ × ℕ)
  pub objects : ℕ → Connection W
  pub buffer : Text
  pub callbacks : Callbacks A
  pub app : A
  pub poll_descriptors : PollDescriptors
  pub broadcasts : ℕ

-- The connection objects that the map holds, in its order.
unfoldable pub clients : List (ℕ × ℕ) → List ℕ
clients [] = []
clients ((wsi, client) ∷ m) = client ∷ clients m

-- getURI; `get_hostname` is the name or address of the context.
unfoldable pub get_uri : Text → Text → Text
get_uri get_hostname port =
    (if is_empty get_hostname then bytes "localhost" else get_hostname) ++ bytes ":" ++ port

module _ {http : HttpLws} {W A : Type 0} where
  -- What the message handler works on: its buffer, and the map of the server.
  unfoldable pub handler_state : Server http W A → State W A
  unfolding clients
  handler_state s = record {
    buffer = s.buffer;
    listed = clients s.ws_connections;
    objects = s.objects;
    app = s.app;
  }

  unfoldable pub with_handler_state : State W A → Server http W A → Server http W A
  with_handler_state t s = record s { buffer = t.buffer; objects = t.objects; app = t.app }

  -- wsConnections.at(wsi)
  unfoldable pub connection_at : ℕ → Server http W A → Result ℕ
  unfolding find
  connection_at wsi s = elim (find wsi s.ws_connections) [
    | none ↦ throw out_of_range
    | some client ↦ ok client
  ]

  unfoldable pub request_broadcast : Server http W A → Server http W A
  request_broadcast s = record s { broadcasts = s.broadcasts + 1 }

  -- setHttpFilter
  unfoldable pub set_http_filter : Option Filter → Server http W A → Server http W A
  unfolding set_filter
  set_http_filter filter s = record s { handler = set_filter filter s.handler }

  unfoldable pub handle :
      Method → Text → RestFunc → Server http W A → Result (Bool × Server http W A)
  unfolding text_eq Registry.add
  handle action endpoint func s =
      if text_eq endpoint (bytes "registry")
      then throw (invalid_argument (bytes "'registry' is a reserved endpoint"))
      else do
        (added, registry) ← Registry.add s.handler.registry action endpoint func
        ok (added, record s { handler = record s.handler { registry = registry } })

  unfoldable pub remove : Text → Server http W A → Bool × Server http W A
  unfolding Registry.remove
  remove endpoint s =
      let (removed, registry) = Registry.remove s.handler.registry endpoint in
      (removed, record s { handler = record s.handler { registry = registry } })

  unfoldable pub handle_open :
      Option (ℕ → A → List Response × A) → Server http W A → Server http W A
  handle_open callback s = record s { callbacks = record s.callbacks { callback_open = callback } }

  unfoldable pub handle_close :
      Option (ℕ → A → List Response × A) → Server http W A → Server http W A
  handle_close callback s = record s {
    callbacks = record s.callbacks { callback_close = callback };
  }

  unfoldable pub handle_text :
      Option (Text → ℕ → A → Response × A) → Server http W A → Server http W A
  handle_text callback s = record s { callbacks = record s.callbacks { callback_text = callback } }

  unfoldable pub handle_text_async :
      Option (Text → ℕ → A → List Text × A) → Server http W A → Server http W A
  handle_text_async callback s = record s {
    callbacks = record s.callbacks { callback_text_async = callback };
  }

  unfoldable pub handle_binary :
      Option (Text → ℕ → A → Response × A) → Server http W A → Server http W A
  handle_binary callback s = record s {
    callbacks = record s.callbacks { callback_binary = callback };
  }

  unfoldable pub get_connection_count : Server http W A → ℕ
  get_connection_count s = length s.ws_connections

  unfoldable pub set_socket_listener : Bool → Server http W A → List Notice × Server http W A
  unfolding set_listener
  set_socket_listener listener s =
      let (notices, poll) = set_listener listener s.poll_descriptors in
      (notices, record s { poll_descriptors = poll })

-- A change of the objects of some clients, in the order of the map.
unfoldable pub for_clients :
    (lws : Lws) → (ℕ → Connection lws.Wsi → Connection lws.Wsi) → List ℕ → Objects lws → Objects lws
unfolding modify
for_clients lws f [] objects = objects
for_clients lws f (c ∷ cs) objects = for_clients lws f cs (modify lws c (f c) objects)

module _ {http : HttpLws} (lws : Lws) {A : Type 0} where
  open lws use {Wsi}

  unfoldable pub broadcast_text : Text → Server http Wsi A → Server http Wsi A
  unfolding for_clients clients enqueue_text request_broadcast
  broadcast_text message s = request_broadcast (record s {
    objects = for_clients lws (λ c. enqueue_text lws message) (clients s.ws_connections) s.objects;
  })

  -- broadcastText for all clients but those of the filter.
  unfoldable pub broadcast_text_filter : Text → List ℕ → Server http Wsi A → Server http Wsi A
  unfolding for_clients clients enqueue_text request_broadcast
  broadcast_text_filter message filter s = request_broadcast (record s {
    objects =
        for_clients lws (λ c o. if memb c filter then o else enqueue_text lws message o)
          (clients s.ws_connections) s.objects;
  })

  unfoldable pub send_text : Text → ℕ → Server http Wsi A → Server http Wsi A
  unfolding for_clients clients enqueue_text request_broadcast
  send_text message client s = request_broadcast (record s {
    objects =
        for_clients lws (λ c o. if client == c then enqueue_text lws message o else o)
          (clients s.ws_connections) s.objects;
  })

  unfoldable pub broadcast_binary : Text → Server http Wsi A → Server http Wsi A
  unfolding for_clients clients enqueue_binary request_broadcast
  broadcast_binary message s = request_broadcast (record s {
    objects =
        for_clients lws (λ c. enqueue_binary lws message) (clients s.ws_connections) s.objects;
  })

  -- openWsConnection; `client` is the address of the new connection object, `wsi_state` its socket.
  unfoldable pub open_ws_connection : ℕ → Wsi → ℕ → Server http Wsi A → Server http Wsi A
  unfolding emplace handler_state with_handler_state handle_open_connection modify
  open_ws_connection wsi wsi_state client s =
      let s' = record s {
        ws_connections = emplace wsi client s.ws_connections;
        objects = modify lws client (λ o. record { out = []; wsi = wsi_state }) s.objects;
      } in
      with_handler_state (handle_open_connection lws s.callbacks client (handler_state s')) s'

  unfoldable pub close_ws_connection : ℕ → Server http Wsi A → Result (Server http Wsi A)
  unfolding connection_at erase handler_state with_handler_state handle_close_connection
  close_ws_connection wsi s = do
    client ← connection_at wsi s
    let s' = with_handler_state (handle_close_connection lws s.callbacks client (handler_state s)) s
    ok (record s' { ws_connections = erase wsi s'.ws_connections })

  unfoldable pub handle_receive : ℕ → Fragment → Server http Wsi A → Result (Server http Wsi A)
  unfolding connection_at handler_state with_handler_state handle_message
  handle_receive wsi fragment s = do
    client ← connection_at wsi s
    ok (with_handler_state (handle_message lws s.callbacks client fragment (handler_state s)) s)

  unfoldable pub handle_write : ℕ → Server http Wsi A → Result (Server http Wsi A)
  unfolding connection_at modify write_messages
  handle_write wsi s = do
    client ← connection_at wsi s
    ok (record s { objects = modify lws client (write_messages lws) s.objects })
