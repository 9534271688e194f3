-- ===== src/Ws/Client/Examples.antt =====
-- Tests of the WebSocket client: the connection is established, and then lost.
use rockets.Prelude.{◌≡◌, refl, Text, bytes, true, false, none, some, List, [], ◌∷◌}
use rockets.Prelude.Result.{runtime_error}
use rockets.ClientContext.{Environment}
use rockets.Ws.Types.{Lws}
use rockets.Ws.Client.{
  unset, fulfilled, failed, Client, client_established, client_connection_error, callback_ws,
  set_value, try_to_set_exception,
}
use rockets.Ws.Client.Outcome.{first_of, reports, Run, stop, event, promise-first}

abbrev log_lws : Lws
log_lws = record {
  Wsi = List Text;
  send_pipe_choked = λ w. false;
  callback_on_writable = λ w. w;
  write = λ s is_text w. s ∷ w;
}

abbrev env : Environment
env = record { parse_uri = λ s. none; no_proxy = none; canonical_hostname = bytes "me" }

abbrev connecting : Client (List Text) Unit
connecting = record {
  promise = unset;
  future_retrieved = true;
  connection = some (record { out = []; wsi = [] });
  buffer = [];
  callbacks = record {
    callback_open = none;
    callback_close = none;
    callback_text = none;
    callback_text_async = none;
    callback_binary = none;
  };
  app = tt;
  context = record { proxy_disabled = false; ws_protocol_name = bytes "chat" };
  poll_descriptors = record { poll_descriptors = []; has_listener = false };
}

abbrev established : Client (List Text) Unit
established = record connecting { promise = fulfilled }

lost_later :
    Run env log_lws established connecting (fulfilled ∷ failed (runtime_error (bytes "gone")) ∷ [])
unfolding callback_ws set_value try_to_set_exception
lost_later =
    event (reports client_established) refl
      (event (reports (client_connection_error (some (bytes "gone")))) refl stop refl) refl

promise-first_example :
    established.promise
    ≡ first_of connecting.promise (fulfilled ∷ failed (runtime_error (bytes "gone")) ∷ [])
promise-first_example = promise-first env log_lws established connecting _ lost_later
