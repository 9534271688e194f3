-- ===== src/Server/Steps.antt =====
-- The calls of the application and the callbacks of libwebsockets, in any order.
use rockets.Prelude.{ℕ, ◌≡◌, Text, Bool, false, Option, List, memb}
use rockets.Prelude.Assoc.{nat_eq}
use rockets.Prelude.Int.{ℤ}
use rockets.Prelude.Result.{ok}
use rockets.Json.{JsonLib}
use rockets.Http.Types.{Method}
use rockets.Http.Lws.{Lws as HttpLws}
use rockets.Http.Handler.{RestFunc, Filter}
use rockets.Poll.{Notice}
use rockets.Ws.Types.{Lws, Response}
use rockets.Server.{
  Server, clients, set_http_filter, handle, remove, handle_open, handle_close, handle_text,
  handle_text_async, handle_binary, set_socket_listener, broadcast_text, broadcast_text_filter,
  send_text, broadcast_binary,
}
use rockets.Server.Protocols.{HttpReason, WsReason, established, callback_http, callback_websockets}

module _ {http : HttpLws} (lws : Lws) {A : Type 0} where
  -- No client has the address that a new connection object gets.
  abbrev pub IsNew : WsReason lws.Wsi → Server http lws.Wsi A → Type 0
  IsNew (established client w) s = memb client (clients s.ws_connections) ≡ false
  IsNew _ s = Unit

module _ (lib : JsonLib) {http : HttpLws} (lws : Lws) {A : Type 0} where
  -- One call of the application, or one callback, that returns.
  pub data Step (s s' : Server http lws.Wsi A) : Type 0 where
    on_http :
        (has_protocol : Bool) (wsi : ℕ) (reason : HttpReason http.Wsi) (code : ℤ)
        (notices : List Notice)
        → callback_http lib has_protocol wsi reason s ≡ ok (code, notices, s')
        → Step s s'
    on_websocket :
        (has_protocol : Bool) (wsi : ℕ) (reason : WsReason lws.Wsi) (code : ℤ)
        → IsNew lws reason s
        → callback_websockets lws has_protocol wsi reason s ≡ ok (code, s')
        → Step s s'
    handles :
        (method : Method) (endpoint : Text) (func : RestFunc) (added : Bool)
        → handle method endpoint func s ≡ ok (added, s')
        → Step s s'
    removes : (endpoint : Text) → (remove endpoint s).1 ≡ s' → Step s s'
    sets_filter : (filter : Option Filter) → set_http_filter filter s ≡ s' → Step s s'
    sets_open : (f : Option (ℕ → A → List Response × A)) → handle_open f s ≡ s' → Step s s'
    sets_close : (f : Option (ℕ → A → List Response × A)) → handle_close f s ≡ s' → Step s s'
    sets_text : (f : Option (Text → ℕ → A → Response × A)) → handle_text f s ≡ s' → Step s s'
    sets_text_async :
        (f : Option (Text → ℕ → A → List Text × A)) → handle_text_async f s ≡ s' → Step s s'
    sets_binary : (f : Option (Text → ℕ → A → Response × A)) → handle_binary f s ≡ s' → Step s s'
    sets_listener : (listener : Bool) → (set_socket_listener listener s).1 ≡ s' → Step s s'
    broadcasts : (message : Text) → broadcast_text lws message s ≡ s' → Step s s'
    broadcasts_but :
        (message : Text) (filter : List ℕ)
        → broadcast_text_filter lws message filter s ≡ s'
        → Step s s'
    sends : (message : Text) (client : ℕ) → send_text lws message client s ≡ s' → Step s s'
    broadcasts_binary : (message : Text) → broadcast_binary lws message s ≡ s' → Step s s'

  pub data Reach (s : Server http lws.Wsi A) : Server http lws.Wsi A → Type 0 where
    here : Reach s s
    next : {t u : Server http lws.Wsi A} → Reach s t → Step t u → Reach s u
