-- ===== src/Http/Client.antt =====
-- rockets/http/requestHandler.cpp and client.cpp: the requests of a client that are on the way, and
-- the callbacks of libwebsockets, for version 2.3 or later. A connection (`lws*`) is known by a
-- number. A callback of the application is known by a number, and calling it is an output; that of a
-- future and its exception are one promise.
pub mod Table
pub mod Promises
pub mod Runs
pub mod Body
pub mod Protocol
use rockets.Prelude.{
  ℕ, ◌<◌, Text, bytes, text_eq, is_empty, Bool, true, false, not, Option, none, some, List, [], ◌∷◌,
  ◌++◌, ltb, if◌then◌else◌,
}
use rockets.Prelude.Assoc.{find, emplace, put, erase, nat_eq}
use rockets.Prelude.Int.{ℤ, pos, minus_one}
use rockets.Prelude.Result.{Result, ok, throw, undefined_behaviour}
use rockets.Http.Types.{Header, Response, make_response}
use rockets.Http.Code
use rockets.Http.Lws.{Lws}
use rockets.Http.Channel.{read_content_length}
use rockets.Http.ClientChannel.{write_request_header, write_request_body, read_response_headers}

pub record RequestHandler (lws : Lws) : Type 0 where
  pub channel : lws.Wsi
  pub body : Text
  pub callback : Option ℕ
  pub error_callback : Option ℕ
  pub response : Response
  pub response_length : ℕ

pub data Effect : Type 0 where
  calls : ℕ → Response → Effect
  fails : ℕ → Text → Effect

abbrev pub connection_failure : Text
connection_failure = bytes "connection failed to start"

module _ {lws : Lws} where
  unfoldable pub make_handler : lws.Wsi → Text → Option ℕ → Option ℕ → RequestHandler lws
  unfolding make_response
  make_handler wsi body callback error_callback = record {
    channel = wsi;
    body = body;
    callback = callback;
    error_callback = error_callback;
    response = make_response Code.ok [];
    response_length = 0;
  }

  unfoldable pub write_headers : RequestHandler lws → ℤ × RequestHandler lws
  unfolding write_request_header
  write_headers h =
      let (code, wsi) = write_request_header lws h.body h.channel in
      (code, record h { channel = wsi })

  unfoldable pub write_body : RequestHandler lws → ℤ × RequestHandler lws
  unfolding write_request_body
  write_body h =
      let (code, wsi) = write_request_body lws h.body h.channel in
      (code, record h { channel = wsi })

  unfoldable pub read_headers : RequestHandler lws → RequestHandler lws
  unfolding read_response_headers read_content_length
  read_headers h = record h {
    response = record h.response {
      code = lws.http_response h.channel;
      headers = read_response_headers lws h.channel;
    };
    response_length = read_content_length lws h.channel;
  }

  unfoldable pub append_to_response_body : Text → RequestHandler lws → RequestHandler lws
  append_to_response_body s h = record h {
    response = record h.response { body = h.response.body ++ s };
  }

  unfoldable pub finish : RequestHandler lws → List Effect
  finish h = elim h.callback [ none ↦ [] | some f ↦ calls f h.response ∷ [] ]

  unfoldable pub abort : Text → RequestHandler lws → List Effect
  abort message h = elim h.error_callback [ none ↦ [] | some f ↦ fails f message ∷ [] ]

  unfoldable pub has_response_body : RequestHandler lws → Bool
  has_response_body h = ltb 0 h.response_length

-- `Client::Impl::requests`
abbrev pub Requests : Lws → Type 0
Requests lws = List (ℕ × RequestHandler lws)

-- The reasons of `lws_callback_reasons` that concern requests, with what `in` points to.
pub data Reason : Type 0 where
  client_append_handshake_header client_http_writeable closed_client_http : Reason
  client_connection_error : Option Text → Reason
  established_client_http receive_client_http completed_client_http : Reason
  receive_client_http_read : Text → Reason

unfoldable pub is_not_a_real_connection_error : Text → Bool
unfolding text_eq
is_not_a_real_connection_error message =
    text_eq message (bytes "HS: Server unrecognized response code")

abbrev pub text_or_empty : Option Text → Text
text_or_empty none = []
text_or_empty (some s) = s

abbrev pub failure_message : Text → Text
failure_message reason =
    if is_empty reason
    then bytes "connection failed"
    else bytes "connection failed" ++ bytes ": " ++ reason

abbrev pub Outcome : Lws → Type 0
Outcome lws = Result (ℤ × List Effect × Requests lws)

module _ {lws : Lws} where
  -- startRequest; `connected` is the connection that libwebsockets gave, if it gave one.
  unfoldable pub start_request :
      Option (ℕ × lws.Wsi) → Text → Option ℕ → Option ℕ → Requests lws → List Effect × Requests lws
  unfolding make_handler emplace
  start_request (some (address, wsi)) body callback error_callback requests =
      ([], emplace address (make_handler wsi body callback error_callback) requests)
  start_request none body callback (some f) requests = (fails f connection_failure ∷ [], requests)
  start_request none body callback none requests = ([], requests)

  -- The request of a future: its promise is in both callbacks.
  unfoldable pub request :
      Option (ℕ × lws.Wsi) → Text → ℕ → Requests lws → List Effect × Requests lws
  unfolding start_request
  request connected body promise requests =
      start_request connected body (some promise) (some promise) requests

  abbrev at_request : Option (RequestHandler lws) → (RequestHandler lws → List Effect) → List Effect
  at_request none f = []
  at_request (some h) f = f h

  unfoldable pub finish_request : ℕ → Requests lws → List Effect × Requests lws
  unfolding find erase finish
  finish_request address requests =
      (at_request (find address requests) finish, erase address requests)

  unfoldable pub abort_request : ℕ → Text → Requests lws → List Effect × Requests lws
  unfolding find erase abort
  abort_request address reason requests =
      (at_request (find address requests) (abort (failure_message reason)), erase address requests)

  -- ~Impl
  unfoldable pub abort_pending_requests : Requests lws → List Effect
  unfolding abort
  abort_pending_requests [] = []
  abort_pending_requests ((address, h) ∷ requests) =
      abort (bytes "client shutdown") h ++ abort_pending_requests requests

  -- A call through `request`, which is a null pointer where the table has no such connection.
  unfoldable pub with_request :
      ℕ → (RequestHandler lws → ℤ × RequestHandler lws) → Requests lws → Outcome lws
  unfolding find put
  with_request address f requests = elim (find address requests) [
    | none ↦ throw undefined_behaviour
    | some h ↦ let (code, h') = f h in ok (code, [], put address h' requests)
  ]

  abbrev pub read_if_any : ℕ → Requests lws → Requests lws
  unfolding find put read_headers
  read_if_any address requests = elim (find address requests) [
    | none ↦ requests
    | some h ↦ put address (read_headers h) requests
  ]

  unfoldable pub established : ℕ → Requests lws → Outcome lws
  unfolding find put read_headers has_response_body finish_request
  established address requests = elim (find address requests) [
    | none ↦ ok (pos 0, [], requests)
    | some h ↦
        let requests' = put address (read_headers h) requests in
        let (effects, requests'') = finish_request address requests' in
        if has_response_body (read_headers h)
        then ok (pos 0, [], requests')
        else ok (minus_one, effects, requests'')
  ]

  unfoldable pub connection_error : ℕ → Text → Requests lws → Outcome lws
  unfolding is_not_a_real_connection_error finish_request abort_request read_if_any
  connection_error address message requests =
      let (effects, requests') =
        if is_not_a_real_connection_error message
        then finish_request address (read_if_any address requests)
        else abort_request address message requests in
      ok (minus_one, effects, requests')

  -- The result of lws_http_client_read is that of the connection, which the table may not have.
  unfoldable pub receive : Bool → Requests lws → Outcome lws
  receive failed requests = ok (if failed then minus_one else pos 0, [], requests)

  -- callback_http; `failed` is the result of lws_http_client_read where that is called.
  unfoldable pub callback_http : ℕ → Reason → Bool → Requests lws → Outcome lws
  unfolding with_request write_headers write_body abort_request connection_error established receive
      append_to_response_body finish_request
  callback_http address client_append_handshake_header failed requests =
      with_request address write_headers requests
  callback_http address client_http_writeable failed requests =
      with_request address write_body requests
  callback_http address closed_client_http failed requests =
      let (effects, requests') = abort_request address [] requests in ok (pos 0, effects, requests')
  callback_http address (client_connection_error message) failed requests =
      connection_error address (text_or_empty message) requests
  callback_http address established_client_http failed requests = established address requests
  callback_http address receive_client_http failed requests = receive failed requests
  callback_http address (receive_client_http_read s) failed requests =
      with_request address (λ h. (pos 0, append_to_response_body s h)) requests
  callback_http address completed_client_http failed requests =
      let (effects, requests') = finish_request address requests in ok (pos 0, effects, requests')
