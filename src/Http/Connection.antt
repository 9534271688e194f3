-- ===== src/Http/Connection.antt =====
-- rockets/http/connection.cpp and connection.h: one incoming request and its response, for
-- libwebsockets 3.1 or later.
use rockets.Prelude.{
  ℕ, ◌-◌, ◌^◌, Text, bytes, is_empty, Bool, true, false, not, ◌&&◌, ◌||◌, [], ◌∷◌, ◌++◌, ltb, ◌==◌,
  if◌then◌else◌,
}
use rockets.Prelude.Int.{ℤ}
use rockets.Prelude.Result.{
  Result, ok, throw, logic_error, future_error, undefined_behaviour, ◌>>=◌,
}
use rockets.Http.Types.{
  Method, post, put, patch, options, CorsRequestHeaders, CorsResponseHeaders,
  access_control_allow_origin, Request, Response, Future, invalid, pending, ready, failed, broken,
  is_ready, make_response,
}
use rockets.Http.Code
use rockets.Http.Lws.{Lws, Token}
use rockets.Http.Channel.{
  read_method, read_header, read_query_parameters, read_content_length, read_cors_request_headers,
}
use rockets.Http.Channel

pub record Connection (lws : Lws) : Type 0 where
  pub channel : lws.Wsi
  pub request : Request
  pub content_length : ℕ
  pub cors_headers : CorsRequestHeaders
  pub cors_response_headers : CorsResponseHeaders
  pub delayed_response : Future Response
  pub delayed_response_set : Bool
  pub response_finalized : Bool
  pub response : Response
  pub response_headers_sent : Bool
  pub response_body_sent : Bool

-- `std::string::max_size()` bounds what `reserve` accepts.
abbrev pub max_size : ℕ
max_size = 2 ^ 63 - 1

-- m == Method::POST || m == Method::PUT || m == Method::PATCH
unfoldable pub method_can_have_http_body : Method → Bool
method_can_have_http_body post = true
method_can_have_http_body put = true
method_can_have_http_body patch = true
method_can_have_http_body _ = false

unfoldable pub is_options : Method → Bool
is_options options = true
is_options _ = false

abbrev pub strip_slash : Text → Text
strip_slash [] = []
strip_slash (c ∷ s) = if c == b'/' then s else c ∷ s

unfoldable pub cors_response_headers_for : CorsRequestHeaders → CorsResponseHeaders
cors_response_headers_for cors =
    if is_empty cors.origin then [] else (access_control_allow_origin, bytes "*") ∷ []

-- `delayedResponse.get()`, behind the test that the response is ready, so that it never waits; a
-- future_error, of a broken promise or of the application, is caught.
unfoldable pub take_response : Future Response → Result Response
unfolding make_response
take_response (ready response) = ok response
take_response (failed future_error) = ok (make_response Code.internal_server_error [])
take_response (failed e) = throw e
take_response broken = ok (make_response Code.internal_server_error [])
take_response invalid = throw undefined_behaviour
take_response pending = throw undefined_behaviour

module _ {lws : Lws} where
  -- The constructor; `reserve` throws a length error past the maximal size.
  unfoldable pub make_connection : lws.Wsi → Text → Result (Connection lws)
  unfolding cors_response_headers_for read_method read_header read_query_parameters
      read_content_length read_cors_request_headers make_response
  make_connection wsi path =
      let cors = read_cors_request_headers lws wsi in
      let size = read_content_length lws wsi in
      if ltb max_size size
      then throw (logic_error (bytes "basic_string::reserve"))
      else ok (record {
        channel = wsi;
        request = record {
          method = read_method lws wsi;
          path = path;
          origin = read_header lws wsi Token.origin;
          host = read_header lws wsi Token.host;
          query = read_query_parameters lws wsi;
          body = [];
        };
        content_length = size;
        cors_headers = cors;
        cors_response_headers = cors_response_headers_for cors;
        delayed_response = invalid;
        delayed_response_set = false;
        response_finalized = false;
        response = make_response Code.ok [];
        response_headers_sent = false;
        response_body_sent = false;
      })

  unfoldable pub get_path_without_leading_slash : Connection lws → Text
  get_path_without_leading_slash c = strip_slash c.request.path

  unfoldable pub can_have_http_body : Connection lws → Bool
  unfolding method_can_have_http_body
  can_have_http_body c = method_can_have_http_body c.request.method && ltb 0 c.content_length

  unfoldable pub append_body : Text → Connection lws → Connection lws
  append_body s c = record c { request = record c.request { body = c.request.body ++ s } }

  unfoldable pub has_cors_preflight_headers : Connection lws → Bool
  has_cors_preflight_headers c =
      not (is_empty c.cors_headers.access_control_request_headers)
      && not (is_empty c.cors_headers.origin)

  unfoldable pub is_cors_preflight_request : Connection lws → Bool
  unfolding is_options has_cors_preflight_headers
  is_cors_preflight_request c = is_options c.request.method && has_cors_preflight_headers c

  unfoldable pub overwrite_request_path : Text → Connection lws → Connection lws
  overwrite_request_path path c = record c { request = record c.request { path = path } }

  unfoldable pub is_response_set : Connection lws → Bool
  is_response_set c = c.delayed_response_set || c.response_finalized

  unfoldable pub is_response_ready : Connection lws → Bool
  unfolding is_ready
  is_response_ready c = c.response_finalized || is_ready c.delayed_response

  unfoldable pub set_response : Future Response → Connection lws → Result (Connection lws)
  unfolding is_response_set
  set_response future c =
      if is_response_set c
      then throw (logic_error (bytes "response was already set!"))
      else ok (record c { delayed_response = future; delayed_response_set = true })

  unfoldable pub set_cors_response_headers :
      CorsResponseHeaders → Connection lws → Result (Connection lws)
  unfolding is_response_set
  set_cors_response_headers headers c =
      if is_response_set c
      then throw (logic_error (bytes "response was already set!"))
      else ok (record c { cors_response_headers = headers; response_finalized = true })

  unfoldable pub request_write_callback : Connection lws → Connection lws
  request_write_callback c = record c { channel = lws.callback_on_writable c.channel }

  unfoldable pub finalize_response : Connection lws → Result (Connection lws)
  unfolding take_response
  finalize_response c = do
    response ← take_response c.delayed_response
    ok (record c { response = response; delayed_response = invalid; response_finalized = true })

  unfoldable pub finalized : Connection lws → Result (Connection lws)
  unfolding finalize_response
  finalized c = if c.response_finalized then ok c else finalize_response c

  unfoldable pub send_headers : Connection lws → ℤ × Connection lws
  unfolding Channel.write_response_headers
  send_headers c =
      let (n, wsi) =
        Channel.write_response_headers lws c.cors_response_headers c.response c.channel in
      (n, record c { response_headers_sent = true; channel = wsi })

  unfoldable pub send_body : Connection lws → ℤ × Connection lws
  unfolding Channel.write_response_body
  send_body c =
      let (n, wsi) = Channel.write_response_body lws c.response c.channel in
      (n, record c { response_body_sent = true; channel = wsi })

  unfoldable pub write_response_headers : Connection lws → Result (ℤ × Connection lws)
  unfolding finalized send_headers
  write_response_headers c =
      if c.response_headers_sent
      then throw (logic_error (bytes "response headers were already sent!"))
      else if c.response_body_sent
      then throw (logic_error (bytes "response body has already been sent!"))
      else do c' ← finalized c; ok (send_headers c')

  unfoldable pub write_response_body : Connection lws → Result (ℤ × Connection lws)
  unfolding send_body
  write_response_body c =
      if not c.response_headers_sent
      then throw (logic_error (bytes "response headers have not been sent yet!"))
      else if c.response_body_sent
      then throw (logic_error (bytes "response body has already been sent!"))
      else if is_empty c.response.body
      then throw (logic_error (bytes "response body is empty!"))
      else ok (send_body c)
