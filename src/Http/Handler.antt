-- ===== src/Http/Handler.antt =====
-- rockets/http/connectionHandler.cpp: how a request becomes a response. A REST function is what the
-- application registers, from the request to a future response; a filter is the application's too.
pub mod Routing
pub mod Lifecycle
pub mod Twice
pub mod Validity
use rockets.Prelude.{
  ℕ, Text, bytes, text_eq, is_empty, Bool, true, false, not, ◌&&◌, ◌||◌, Option, none, some, List,
  [], ◌∷◌, length, drop, leb, ◌==◌, if◌then◌else◌,
}
use rockets.Prelude.Int.{ℤ, pos}
use rockets.Prelude.Result.{Result, ok, throw, logic_error, ◌>>=◌}
use rockets.Json.{JsonLib}
use rockets.Http.Types.{
  Method, get, CorsResponseHeaders, access_control_allow_headers, access_control_allow_methods,
  access_control_allow_origin, Header, Request, Response, Future, make_ready_response,
  make_response, make_typed_response,
}
use rockets.Http.Code
use rockets.Http.Lws.{Lws}
use rockets.Http.Registry.{Registry, find_endpoint, get_function, get_allowed_methods}
use rockets.Http.RegistryJson.{to_json}
use rockets.Http.Connection.{
  Connection, get_path_without_leading_slash, can_have_http_body, append_body,
  is_cors_preflight_request, overwrite_request_path, is_response_set, is_response_ready,
  set_response, set_cors_response_headers, request_write_callback,
}
use rockets.Http.Connection

abbrev pub RestFunc : Type 0
RestFunc = Request → Future Response

-- rockets/http/filter.h
pub record Filter : Type 0 where
  pub filter : Request → Bool
  pub get_response : Request → Response

pub record ConnectionHandler : Type 0 where
  pub registry : Registry RestFunc
  pub filter : Option Filter

unfoldable pub set_filter : Option Filter → ConnectionHandler → ConnectionHandler
set_filter filter h = record h { filter = filter }

unfoldable pub remove_endpoint_from_path : Text → Text → Text
remove_endpoint_from_path endpoint path =
    if text_eq endpoint (bytes "/")
    then path
    else if leb (length path) (length endpoint)
    then []
    else drop (length endpoint) path

-- *endpoint.rbegin() == '/', for an endpoint that is not empty
unfoldable pub ends_in_slash : Text → Bool
ends_in_slash [] = false
ends_in_slash (c ∷ []) = c == b'/'
ends_in_slash (c ∷ d ∷ s) = ends_in_slash (d ∷ s)

abbrev is_get : Method → Bool
is_get get = true
is_get _ = false

-- The 405 with the methods that the path has, and else the 404.
unfoldable pub refuse : ConnectionHandler → Text → Future Response
unfolding make_ready_response make_response
refuse h path =
    let allowed = get_allowed_methods h.registry path in
    if is_empty allowed
    then make_ready_response (make_response Code.not_found [])
    else make_ready_response
        (record { code = Code.not_supported; body = []; headers = (Header.allow, allowed) ∷ [] })

unfoldable pub make_cors_preflight_response_headers : ConnectionHandler → Text → CorsResponseHeaders
make_cors_preflight_response_headers h path =
    (access_control_allow_headers, bytes "Content-Type")
    ∷ (access_control_allow_methods, get_allowed_methods h.registry path)
    ∷ (access_control_allow_origin, bytes "*")
    ∷ []

module _ {lws : Lws} where
  unfoldable pub call_handler : ConnectionHandler → Connection lws → Text → Result (Future Response)
  call_handler h c endpoint = do
    func ← get_function h.registry c.request.method endpoint
    ok (func c.request)

  handle_at : ConnectionHandler → Connection lws → Text → Result (Future Response × Connection lws)
  unfolding call_handler
  handle_at h c endpoint = do response ← call_handler h c endpoint; ok (response, c)

  -- The part of `_generateResponse` behind the filter and the registry request. The connection comes
  -- back with the path that the REST function saw.
  unfoldable pub route :
      ConnectionHandler → Connection lws → Text → Result (Future Response × Connection lws)
  unfolding handle_at overwrite_request_path refuse remove_endpoint_from_path ends_in_slash
  route h c path = do
    result ← find_endpoint h.registry c.request.method path
    let stripped = remove_endpoint_from_path result.endpoint path
    (if result.found && (is_empty stripped || ends_in_slash result.endpoint)
        then handle_at h (overwrite_request_path stripped c) result.endpoint
        else ok (refuse h path, c))

module _ (lib : JsonLib) {lws : Lws} where
  unfiltered : ConnectionHandler → Connection lws → Result (Future Response × Connection lws)
  unfolding route make_ready_response make_typed_response
  unfiltered h c =
      let path = get_path_without_leading_slash c in
      if is_get c.request.method && text_eq path (bytes "registry")
      then ok (
        make_ready_response
            (make_typed_response Code.ok (to_json lib h.registry) (bytes "application/json")),
        c,
      )
      else route h c path

  unfoldable pub generate_response :
      ConnectionHandler → Connection lws → Result (Future Response × Connection lws)
  unfolding unfiltered make_ready_response
  generate_response h c = elim h.filter [
    | none ↦ unfiltered h c
    | some f ↦
        if f.filter c.request
        then ok (make_ready_response (f.get_response c.request), c)
        else unfiltered h c
  ]

  unfoldable pub prepare_response : ConnectionHandler → Connection lws → Result (Connection lws)
  unfolding generate_response
  prepare_response h c =
      let rest = do
        (response, c') ← generate_response h c
        c'' ← set_response response c'
        ok (request_write_callback c'')
      in if not (can_have_http_body c) && is_response_set c then ok c else rest

  unfoldable pub prepare_cors_preflight_response :
      ConnectionHandler → Connection lws → Result (Connection lws)
  unfolding make_cors_preflight_response_headers
  prepare_cors_preflight_response h c = do
    c' ←
        set_cors_response_headers
          (make_cors_preflight_response_headers h (get_path_without_leading_slash c)) c
    ok (request_write_callback c')

  unfoldable pub handle_new_request : ConnectionHandler → Connection lws → Result (Connection lws)
  unfolding prepare_response prepare_cors_preflight_response
  handle_new_request h c =
      if is_cors_preflight_request c
      then prepare_cors_preflight_response h c
      else if not (can_have_http_body c)
      then prepare_response h c
      else ok c

module _ {lws : Lws} where
  unfoldable pub handle_data : Text → Connection lws → Connection lws
  handle_data data' c = append_body data' c

  unfoldable pub write_response : Connection lws → Result (ℤ × Connection lws)
  write_response c =
      if not (is_response_set c)
      then throw (logic_error (bytes "Response has not been prepared yet!"))
      else if not (is_response_ready c)
      then ok (pos 0, request_write_callback c)
      else if not c.response_headers_sent
      then Connection.write_response_headers c
      else Connection.write_response_body c
