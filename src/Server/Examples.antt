-- ===== src/Server/Examples.antt =====
-- Tests of the server: two WebSocket clients, and one request over HTTP.
use rockets.Prelude.{
  ℕ, ◌≡◌, refl, Text, bytes, true, false, not, none, List, [], ◌∷◌, memb, ◌==◌, arith, text_eq,
  is_prefix,
}
use rockets.Prelude.Assoc.{find, nat_eq}
use rockets.Prelude.Int.{pos}
use rockets.Prelude.Result.{ok}
use rockets.Json.Toy.{toy}
use rockets.Http.Types.{Request, Response, Future, ready, get, all, is_ready, make_response}
use rockets.Http.Lws.{Lws as HttpLws, get_uri}
use rockets.Http.Channel.{
  read_method, read_header, read_query_parameters, read_content_length, read_cors_request_headers,
  add_fragments,
}
use rockets.Http.FuncMap.{begins_with_path}
use rockets.Http.FuncMap
use rockets.Http.Registry.{get_function, methods_at, find_endpoint}
use rockets.Http.Connection.{
  Connection as HttpConnection, make_connection, cors_response_headers_for, overwrite_request_path,
  get_path_without_leading_slash, is_cors_preflight_request, is_options, can_have_http_body,
  method_can_have_http_body, take_response,
}
use rockets.Http.Handler.{
  generate_response, route, call_handler, remove_endpoint_from_path, ends_in_slash,
}
use rockets.Http.Handler.Twice.{written}
use rockets.Http.Examples.{log_lws, handler, echo}
use rockets.Ws.Types.{Lws}
use rockets.Ws.Connection.{enqueue_text, enqueue_binary}
use rockets.Ws.MessageHandler.{Callbacks}
use rockets.Server.{
  Server, clients, broadcast_text, broadcast_text_filter, send_text, broadcast_binary, handle_write,
  open_ws_connection, request_broadcast,
}
use rockets.Server.Broadcast.{Puts, Written, broadcast-Puts, broadcast_text-Written}
use rockets.Server.Protocols.{established, callback_websockets, handle_websocket}
use rockets.Server.Steps.{Reach, here, next, broadcasts, on_websocket}
use rockets.Server.Reserved.{IsReserved}
use rockets.Server.Invariant.{IsValid, Reach-IsValid}
use rockets.Server.Exchange.{exchange, Served, exchange-Served}

abbrev ws_lws : Lws
ws_lws = record {
  Wsi = List Text;
  send_pipe_choked = λ w. false;
  callback_on_writable = λ w. w;
  write = λ s is_text w. s ∷ w;
}

abbrev no_callbacks : Callbacks Unit
no_callbacks = record {
  callback_open = none;
  callback_close = none;
  callback_text = none;
  callback_text_async = none;
  callback_binary = none;
}

abbrev two_clients : Server log_lws (List Text) Unit
two_clients = record {
  handler = record {
    registry = record {
      gets = [];
      posts = [];
      puts = [];
      patches = [];
      deletes = [];
      optionss = [];
    };
    filter = none;
  };
  connections = [];
  ws_connections = (7, 1) ∷ (8, 2) ∷ [];
  objects = λ k. record { out = []; wsi = [] };
  buffer = [];
  callbacks = no_callbacks;
  app = tt;
  poll_descriptors = record { poll_descriptors = []; has_listener = false };
  broadcasts = 0;
}

broadcast-Puts_example :
    Puts ws_lws
      (enqueue_text ws_lws (bytes "hi"))
      (λ k. true)
      two_clients
      (broadcast_text ws_lws (bytes "hi") two_clients)
    × Puts ws_lws
        (enqueue_text ws_lws (bytes "hi"))
        (λ k. not (memb k (2 ∷ [])))
        two_clients
        (broadcast_text_filter ws_lws (bytes "hi") (2 ∷ []) two_clients)
    × Puts ws_lws
        (enqueue_text ws_lws (bytes "hi"))
        (λ k. 1 == k)
        two_clients
        (send_text ws_lws (bytes "hi") 1 two_clients)
    × Puts ws_lws
        (enqueue_binary ws_lws (bytes "hi"))
        (λ k. true)
        two_clients
        (broadcast_binary ws_lws (bytes "hi") two_clients)
broadcast-Puts_example =
    broadcast-Puts ws_lws (bytes "hi") (2 ∷ []) 1 two_clients (unfold clients in (refl, (refl, tt)))

broadcast_text-Written_example :
    (s' : Server log_lws (List Text) Unit) × (handle_write ws_lws 7
        (broadcast_text ws_lws (bytes "hi") two_clients)
      ≡ ok s')
    × Written ws_lws (bytes "hi") (record { out = []; wsi = [] }) (s'.objects 1)
broadcast_text-Written_example =
    broadcast_text-Written ws_lws (bytes "hi") 7 1 two_clients
      (unfold clients in (refl, (refl, tt))) (unfold find in refl)

no_endpoints-IsReserved : IsReserved two_clients.handler.registry
unfolding get_function methods_at FuncMap.lookup
no_endpoints-IsReserved all f e = ground arith
no_endpoints-IsReserved _ f e = ground arith

two_clients-IsValid : IsValid two_clients
two_clients-IsValid = record {
  clients_distinct = unfold clients in (refl, (refl, tt));
  requests_valid = λ wsi c f. absurd (unfold find in ground arith);
  registry_valid = record {
    gets = tt;
    posts = tt;
    puts = tt;
    patches = tt;
    deletes = tt;
    optionss = tt;
  };
  reserved = no_endpoints-IsReserved;
}

abbrev greeted : Server log_lws (List Text) Unit
greeted = broadcast_text ws_lws (bytes "hi") two_clients

third_opens :
    callback_websockets {http = log_lws} ws_lws true 9 (established 3 []) greeted
    ≡ ok (pos 0, open_ws_connection ws_lws 9 [] 3 greeted)
unfolding callback_websockets handle_websocket
third_opens = refl

three_clients : Reach (toy []) ws_lws two_clients (open_ws_connection ws_lws 9 [] 3 greeted)
three_clients = next (next here (broadcasts (bytes "hi") refl)) (
    on_websocket true 9 (established 3 []) (pos 0)
      (unfold clients broadcast_text request_broadcast in refl) third_opens)

Reach-IsValid_example : IsValid (open_ws_connection {http = log_lws} ws_lws 9 [] 3 greeted)
Reach-IsValid_example =
    Reach-IsValid (toy []) ws_lws (open_ws_connection ws_lws 9 [] 3 greeted) three_clients
      two_clients-IsValid

-- A GET request without a body.
abbrev get_lws : HttpLws
get_lws = record log_lws { hdr_total_length = λ w t. elim t [ get_uri ↦ 1 | _ ↦ 0 ] }

abbrev request : Request
request = record {
  method = get;
  path = bytes "/api/x";
  origin = [];
  host = [];
  query = [];
  body = [];
}

abbrev new_connection : HttpConnection get_lws
new_connection = record {
  channel = [];
  request = request;
  content_length = 0;
  cors_headers = record {
    origin = [];
    access_control_request_headers = [];
    access_control_request_method = all;
  };
  cors_response_headers = [];
  delayed_response = Future.invalid;
  delayed_response_set = false;
  response_finalized = false;
  response = record { code = 200; body = []; headers = [] };
  response_headers_sent = false;
  response_body_sent = false;
}

made : make_connection {lws = get_lws} [] (bytes "/api/x") ≡ ok new_connection
unfolding make_connection cors_response_headers_for read_method read_header read_query_parameters
    read_content_length read_cors_request_headers make_response add_fragments
made = refl

generated :
    generate_response (toy []) handler new_connection
    ≡ ok (
      echo (record request { path = bytes "x" }),
      overwrite_request_path (bytes "x") new_connection,
    )
unfolding generate_response route find_endpoint FuncMap.find_in begins_with_path is_prefix
    call_handler get_function FuncMap.lookup text_eq get_path_without_leading_slash
    remove_endpoint_from_path ends_in_slash overwrite_request_path methods_at
generated = refl

plain : is_cors_preflight_request new_connection ≡ false
unfolding is_cors_preflight_request is_options
plain = refl

no_body : can_have_http_body new_connection ≡ false
unfolding can_have_http_body method_can_have_http_body
no_body = refl

abbrev echoed : Response
echoed = record { code = 200; body = bytes "x"; headers = [] }

exchange-Served_example :
    (m₃ : List (ℕ × HttpConnection get_lws)) × (exchange (toy []) handler 4 (bytes "/api/x") [] []
      ≡ ok (
        (written echoed (overwrite_request_path (bytes "x") new_connection)).0,
        (written echoed (overwrite_request_path (bytes "x") new_connection)).1,
        m₃,
      ))
    × Served
        (toy [])
        handler
        4
        (written echoed (overwrite_request_path (bytes "x") new_connection)).2
        []
        m₃
exchange-Served_example =
    exchange-Served (toy []) handler 4 (bytes "/api/x") [] [] new_connection
      (overwrite_request_path (bytes "x") new_connection) (ready echoed) echoed made
      (unfold find in refl) plain no_body generated (unfold is_ready in refl)
      (unfold take_response in refl) refl
