-- ===== src/Server/Invariant.antt =====
-- What holds of a server after any calls of the application and any callbacks of libwebsockets.
use rockets.Prelude.{
  ℕ, ◌≡◌, refl, ap, ◌⊎◌, inl, inr, Text, bytes, text_eq, Bool, true, false, List, [], memb,
  Distinct, arith, Bool-cases,
}
use rockets.Prelude.Assoc.{nat_eq}
use rockets.Prelude.Int.{ℤ}
use rockets.Prelude.Result.{Result, ok, ok-injective, ◌>>=◌, >>=-eq-ok}
use rockets.Json.{JsonLib}
use rockets.Http.Types.{Method}
use rockets.Http.Lws.{Lws as HttpLws}
use rockets.Http.Registry
use rockets.Http.Registry.Laws.{add-IsValid, remove-IsValid}
use rockets.Http.Handler.{RestFunc}
use rockets.Poll.{Notice}
use rockets.Ws.Types.{Lws, Fragment}
use rockets.Server.{
  Server, clients, set_http_filter, handle, remove, handle_open, handle_close, handle_text,
  handle_text_async, handle_binary, set_socket_listener, broadcast_text, broadcast_text_filter,
  send_text, broadcast_binary, open_ws_connection, close_ws_connection, handle_receive,
  handle_write, connection_at, with_handler_state, request_broadcast,
}
use rockets.Server.Protocols.{
  HttpReason, WsReason, established, closed, receive, server_writeable, other_reason, handle_http,
  callback_http, handle_websocket, callback_websockets,
}
use rockets.Server.Requests.{AllValid, handle_http-AllValid}
use rockets.Server.Reserved.{IsReserved, add-IsReserved, remove-IsReserved}
use rockets.Server.Steps.{
  IsNew, Step, on_http, on_websocket, handles, removes, sets_filter, sets_open, sets_close,
  sets_text, sets_text_async, sets_binary, sets_listener, broadcasts, broadcasts_but, sends,
  broadcasts_binary, Reach, here, next,
}
use rockets.Server.Clients.{emplace-Distinct, erase-Distinct}

module _ {http : HttpLws} {W A : Type 0} where
  pub record IsValid (s : Server http W A) : Type 0 where
    pub clients_distinct : Distinct (clients s.ws_connections)
    pub requests_valid : AllValid s.connections
    pub registry_valid : Registry.IsValid s.handler.registry
    pub reserved : IsReserved s.handler.registry

module _ (lib : JsonLib) {http : HttpLws} (lws : Lws) {A : Type 0} where
  -- What most calls leave as it is.
  record Same (s s' : Server http lws.Wsi A) : Type 0 where
    same_clients : s'.ws_connections ≡ s.ws_connections
    same_requests : s'.connections ≡ s.connections
    same_registry : s'.handler.registry ≡ s.handler.registry

  Same-IsValid : (s s' : Server http lws.Wsi A) → Same s s' → IsValid s → IsValid s'
  Same-IsValid s s' k v = record {
    clients_distinct = rw k.same_clients v.clients_distinct;
    requests_valid = rw k.same_requests v.requests_valid;
    registry_valid = rw k.same_registry v.registry_valid;
    reserved = rw k.same_registry v.reserved;
  }

  opened-IsValid :
      (wsi client : ℕ) (w : lws.Wsi) (s : Server http lws.Wsi A)
      → memb client (clients s.ws_connections) ≡ false
      → IsValid s
      → IsValid (open_ws_connection lws wsi w client s)
  unfolding open_ws_connection with_handler_state
  opened-IsValid wsi client w s new v = record {
    clients_distinct = emplace-Distinct wsi client s.ws_connections new v.clients_distinct;
    requests_valid = v.requests_valid;
    registry_valid = v.registry_valid;
    reserved = v.reserved;
  }

  closed-IsValid :
      (wsi : ℕ) (s s' : Server http lws.Wsi A)
      → close_ws_connection lws wsi s ≡ ok s'
      → IsValid s
      → IsValid s'
  unfolding close_ws_connection with_handler_state
  closed-IsValid wsi s s' e v =
      let (client, _, same) = >>=-eq-ok (connection_at wsi s) _ e in
      rw (← ok-injective same) (record {
        clients_distinct = erase-Distinct wsi s.ws_connections v.clients_distinct;
        requests_valid = v.requests_valid;
        registry_valid = v.registry_valid;
        reserved = v.reserved;
      })

  -- A message that comes, and messages that are written, change the objects and the application.
  served-IsValid :
      (wsi : ℕ) (fragment : Fragment) (s s' : Server http lws.Wsi A)
      → (handle_receive lws wsi fragment s ≡ ok s') ⊎ (handle_write lws wsi s ≡ ok s')
      → IsValid s
      → IsValid s'
  unfolding handle_receive handle_write with_handler_state
  served-IsValid wsi fragment s s' (inl e) v =
      let (client, _, same) = >>=-eq-ok (connection_at wsi s) _ e in
      rw (← ok-injective same) (
        Same-IsValid s _
          (record { same_clients = refl; same_requests = refl; same_registry = refl }) v)
  served-IsValid wsi fragment s s' (inr e) v =
      let (client, _, same) = >>=-eq-ok (connection_at wsi s) _ e in
      rw (← ok-injective same) (
        Same-IsValid s _
          (record { same_clients = refl; same_requests = refl; same_registry = refl }) v)

  websocket-IsValid :
      (wsi : ℕ) (reason : WsReason lws.Wsi) (s s' : Server http lws.Wsi A)
      → IsNew lws reason s
      → handle_websocket lws wsi reason s ≡ ok s'
      → IsValid s
      → IsValid s'
  unfolding handle_websocket
  websocket-IsValid wsi (established client w) s s' new e v =
      rw (← ok-injective e) (opened-IsValid wsi client w s new v)
  websocket-IsValid wsi closed s s' new e v = closed-IsValid wsi s s' e v
  websocket-IsValid wsi (receive fragment) s s' new e v = served-IsValid wsi fragment s s' (inl e) v
  websocket-IsValid wsi server_writeable s s' new e v =
      served-IsValid wsi no_fragment s s' (inr e) v
    where
      no_fragment : Fragment
      no_fragment = record { content = []; is_final = true; is_binary = false }
  websocket-IsValid wsi other_reason s s' new e v = rw (← ok-injective e) v

  http-IsValid :
      (has_protocol : Bool) (wsi : ℕ) (reason : HttpReason http.Wsi) (code : ℤ)
      (notices : List Notice) (s s' : Server http lws.Wsi A)
      → callback_http lib has_protocol wsi reason s ≡ ok (code, notices, s')
      → IsValid s
      → IsValid s'
  unfolding callback_http
  http-IsValid false wsi reason code notices s s' e v =
      let same : s ≡ s' = ground arith in rw (← same) v
  http-IsValid true wsi reason code notices s s' e v =
      let ((code', m), handled, same) =
        >>=-eq-ok (handle_http {lws = http} lib s.handler wsi reason s.connections) _ e in
      rw (← ap (λ r. r.2) (ok-injective same)) (record {
        clients_distinct = v.clients_distinct;
        requests_valid =
            handle_http-AllValid lib s.handler wsi reason s.connections m code' handled
              v.requests_valid;
        registry_valid = v.registry_valid;
        reserved = v.reserved;
      })

  added_to :
      (method : Method) (endpoint : Text) (func : RestFunc) (added : Bool)
      (s s' : Server http lws.Wsi A)
      → text_eq endpoint (bytes "registry") ≡ false
      → handle method endpoint func s ≡ ok (added, s')
      → ◌≡◌ {A = Result (Bool × Server http lws.Wsi A)}
          (do
            (b, r) ← Registry.add s.handler.registry method endpoint func
            ok (b, record s { handler = record s.handler { registry = r } }))
          (ok (added, s'))
  unfolding handle
  added_to method endpoint func added s s' free e = ground arith

  handle-IsValid :
      (method : Method) (endpoint : Text) (func : RestFunc) (added : Bool)
      (s s' : Server http lws.Wsi A)
      → handle method endpoint func s ≡ ok (added, s')
      → IsValid s
      → IsValid s'
  unfolding handle
  handle-IsValid method endpoint func added s s' e v =
      elim (Bool-cases (text_eq endpoint (bytes "registry"))) [
        | inl taken ↦ ground arith
        | inr free ↦
            let ((b, r), done, same) =
              >>=-eq-ok (Registry.add s.handler.registry method endpoint func) _
                (added_to method endpoint func added s s' free e) in
            rw (← ap (λ t. t.1) (ok-injective same)) (record {
              clients_distinct = v.clients_distinct;
              requests_valid = v.requests_valid;
              registry_valid =
                  add-IsValid s.handler.registry r method endpoint func b v.registry_valid done;
              reserved =
                  add-IsReserved s.handler.registry r method endpoint func b free done v.reserved;
            })
      ]

  removed-IsValid :
      (endpoint : Text) (s : Server http lws.Wsi A) → IsValid s → IsValid (remove endpoint s).1
  unfolding remove
  removed-IsValid endpoint s v = record {
    clients_distinct = v.clients_distinct;
    requests_valid = v.requests_valid;
    registry_valid = remove-IsValid s.handler.registry endpoint v.registry_valid;
    reserved = remove-IsReserved s.handler.registry endpoint v.registry_valid v.reserved;
  }

  websockets-IsValid :
      (has_protocol : Bool) (wsi : ℕ) (reason : WsReason lws.Wsi) (code : ℤ)
      (s s' : Server http lws.Wsi A)
      → IsNew lws reason s
      → callback_websockets lws has_protocol wsi reason s ≡ ok (code, s')
      → IsValid s
      → IsValid s'
  unfolding callback_websockets
  websockets-IsValid false wsi reason code s s' new e v =
      let same : s ≡ s' = ground arith in rw (← same) v
  websockets-IsValid true wsi reason code s s' new e v =
      let (t, handled, same) = >>=-eq-ok (handle_websocket lws wsi reason s) _ e in
      rw (← ap (λ r. r.1) (ok-injective same)) (websocket-IsValid wsi reason s t new handled v)

  Step-IsValid : (s s' : Server http lws.Wsi A) → Step lib lws s s' → IsValid s → IsValid s'
  unfolding set_http_filter handle_open handle_close handle_text handle_text_async handle_binary
      set_socket_listener broadcast_text broadcast_text_filter send_text broadcast_binary
      request_broadcast
  Step-IsValid s s' (on_http p wsi reason code notices e) v =
      http-IsValid p wsi reason code notices s s' e v
  Step-IsValid s s' (on_websocket p wsi reason code new e) v =
      websockets-IsValid p wsi reason code s s' new e v
  Step-IsValid s s' (handles m endpoint f added e) v = handle-IsValid m endpoint f added s s' e v
  Step-IsValid s s' (removes endpoint e) v = rw (← e) (removed-IsValid endpoint s v)
  Step-IsValid s s' (sets_filter f e) v = Same-IsValid s s' (ground arith) v
  Step-IsValid s s' (sets_open f e) v = Same-IsValid s s' (ground arith) v
  Step-IsValid s s' (sets_close f e) v = Same-IsValid s s' (ground arith) v
  Step-IsValid s s' (sets_text f e) v = Same-IsValid s s' (ground arith) v
  Step-IsValid s s' (sets_text_async f e) v = Same-IsValid s s' (ground arith) v
  Step-IsValid s s' (sets_binary f e) v = Same-IsValid s s' (ground arith) v
  Step-IsValid s s' (sets_listener f e) v = Same-IsValid s s' (ground arith) v
  Step-IsValid s s' (broadcasts m e) v = Same-IsValid s s' (ground arith) v
  Step-IsValid s s' (broadcasts_but m filter e) v = Same-IsValid s s' (ground arith) v
  Step-IsValid s s' (sends m client e) v = Same-IsValid s s' (ground arith) v
  Step-IsValid s s' (broadcasts_binary m e) v = Same-IsValid s s' (ground arith) v

  -- Whatever the application calls and libwebsockets reports, in whatever order, the server stays
  -- valid, if it was: its WebSocket clients are distinct, each of its HTTP connections has written
  -- its headers before its body and them only of a final response, the maps of its endpoints are
  -- sorted, and none of them has "registry". A new connection object has an address that no client
  -- has.
  pub Reach-IsValid :
      {s : Server http lws.Wsi A} (s' : Server http lws.Wsi A)
      → Reach lib lws s s'
      → IsValid s
      → IsValid s'
  Reach-IsValid s' here v = v
  Reach-IsValid s' (next {t = t} past step) v = Step-IsValid t s' step (Reach-IsValid t past v)
