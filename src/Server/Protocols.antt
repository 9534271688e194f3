-- ===== src/Server/Protocols.antt =====
-- rockets/server.cpp: the callbacks that libwebsockets calls. `has_protocol` says whether it gives a
-- protocol for the connection, which it may not at first. An exception goes to libwebsockets, which
-- knows none: the program has then ended.
use rockets.Prelude.{ℕ, Text, Bool, none, some, List, [], is_some, if◌then◌else◌}
use rockets.Prelude.Assoc.{find, put, emplace, erase, nat_eq}
use rockets.Prelude.Int.{ℤ, pos, minus_one}
use rockets.Prelude.Result.{Result, ok, throw, out_of_range, ◌>>=◌}
use rockets.Json.{JsonLib}
use rockets.Http.Lws.{Lws as HttpLws}
use rockets.Http.Connection.{Connection as HttpConnection, make_connection}
use rockets.Http.Handler.{
  ConnectionHandler, handle_new_request, handle_data, prepare_response, write_response,
}
use rockets.Poll.{Notice, Pollargs, PollDescriptors, add, update, remove}
use rockets.Ws.Types.{Lws, Fragment}
use rockets.Server.{Server, open_ws_connection, close_ws_connection, handle_receive, handle_write}

-- The reasons of `lws_callback_reasons` that concern the HTTP protocol, with what `in` points to.
pub data HttpReason (W : Type 0) : Type 0 where
  http : Text → W → HttpReason W
  http_body : Text → HttpReason W
  http_body_completion http_writeable http_drop_protocol closed_http : HttpReason W
  add_poll_fd del_poll_fd change_mode_poll_fd : Pollargs → HttpReason W
  other_reason : HttpReason W

pub data WsReason (W : Type 0) : Type 0 where
  -- The address of the connection object that is made, and the socket.
  established : ℕ → W → WsReason W
  closed server_writeable other_reason : WsReason W
  receive : Fragment → WsReason W

module _ {lws : HttpLws} where
  -- f(connections.at(wsi))
  unfoldable pub at_connection :
      ℕ
      → (HttpConnection lws → Result (ℤ × HttpConnection lws))
      → List (ℕ × HttpConnection lws)
      → Result (ℤ × List (ℕ × HttpConnection lws))
  unfolding find put
  at_connection wsi f m = elim (find wsi m) [
    | none ↦ throw out_of_range
    | some c ↦ do (code, c') ← f c; ok (code, put wsi c' m)
  ]

  unfoldable pub returning : Result (HttpConnection lws) → Result (ℤ × HttpConnection lws)
  returning result = do c ← result; ok (pos 0, c)

  -- The reasons that concern the connections of HTTP.
  unfoldable pub handle_http :
      JsonLib
      → ConnectionHandler
      → ℕ
      → HttpReason lws.Wsi
      → List (ℕ × HttpConnection lws)
      → Result (ℤ × List (ℕ × HttpConnection lws))
  unfolding at_connection returning find emplace erase make_connection handle_new_request
      handle_data prepare_response write_response
  handle_http lib handler wsi (http path w) m = do
    c ← make_connection w path
    (if is_some (find wsi m)
        then ok (minus_one, m)
        else at_connection wsi (λ c'. returning (handle_new_request lib handler c'))
            (emplace wsi c m))
  handle_http lib handler wsi (http_body s) m =
      at_connection wsi (λ c. ok (pos 0, handle_data s c)) m
  handle_http lib handler wsi http_body_completion m =
      at_connection wsi (λ c. returning (prepare_response lib handler c)) m
  handle_http lib handler wsi http_writeable m =
      if is_some (find wsi m) then at_connection wsi write_response m else ok (pos 0, m)
  handle_http lib handler wsi http_drop_protocol m = ok (pos 0, erase wsi m)
  handle_http lib handler wsi closed_http m = ok (pos 0, erase wsi m)
  handle_http lib handler wsi _ m = ok (pos 0, m)

-- The reasons that concern the sockets.
unfoldable pub handle_poll :
    {W : Type 0} → HttpReason W → PollDescriptors → List Notice × PollDescriptors
unfolding add remove update
handle_poll (add_poll_fd pa) poll = add pa poll
handle_poll (del_poll_fd pa) poll = remove pa poll
handle_poll (change_mode_poll_fd pa) poll = update pa poll
handle_poll _ poll = ([], poll)

module _ {lws : HttpLws} {W A : Type 0} where
  unfoldable pub callback_http :
      JsonLib
      → Bool
      → ℕ
      → HttpReason lws.Wsi
      → Server lws W A
      → Result (ℤ × List Notice × Server lws W A)
  unfolding handle_http handle_poll
  callback_http lib has_protocol wsi reason s =
      let rest = do
        (code, connections) ← handle_http lib s.handler wsi reason s.connections
        let (notices, poll) = handle_poll reason s.poll_descriptors
        ok (code, notices, record s { connections = connections; poll_descriptors = poll })
      in if has_protocol then rest else ok (pos 0, [], s)

module _ {http : HttpLws} (lws : Lws) {A : Type 0} where
  unfoldable pub handle_websocket :
      ℕ → WsReason lws.Wsi → Server http lws.Wsi A → Result (Server http lws.Wsi A)
  unfolding open_ws_connection close_ws_connection handle_receive handle_write
  handle_websocket wsi (established client w) s = ok (open_ws_connection lws wsi w client s)
  handle_websocket wsi closed s = close_ws_connection lws wsi s
  handle_websocket wsi (receive fragment) s = handle_receive lws wsi fragment s
  handle_websocket wsi server_writeable s = handle_write lws wsi s
  handle_websocket wsi other_reason s = ok s

  unfoldable pub callback_websockets :
      Bool → ℕ → WsReason lws.Wsi → Server http lws.Wsi A → Result (ℤ × Server http lws.Wsi A)
  unfolding handle_websocket
  callback_websockets has_protocol wsi reason s =
      let rest = (do s' ← handle_websocket wsi reason s; ok (pos 0, s')) in
      if has_protocol then rest else ok (pos 0, s)
