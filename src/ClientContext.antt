-- ===== src/ClientContext.antt =====
-- rockets/clientContext.cpp: how a client starts a connection, for libwebsockets 2.4 or later. The
-- environment, lws_parse_uri and the name of the host are parameters.
pub mod NoProxy
pub mod Start
pub mod Examples
use rockets.Prelude.{
  ℕ, ◌-◌, Text, bytes, text_eq, is_empty, Bool, true, false, ◌&&◌, ◌||◌, Option, none, some, List,
  [], ◌∷◌, ◌++◌, length, drop, ltb, ◌==◌, if◌then◌else◌,
}
use rockets.Prelude.Result.{Exception, Result, ok, throw, invalid_argument, runtime_error}
use rockets.Prelude.Act.{Act, lift, raise, ◌>>=◌}
use rockets.Http.Types.{Method, to_cstring}
use rockets.Uri.{Uri, ParsedUri, parse_with}

-- string.compare(string.length() - ending.length(), ending.length(), ending) == 0
unfoldable pub has_ending : Text → Text → Bool
unfolding text_eq
has_ending string ending =
    if ltb (length string) (length ending)
    then false
    else text_eq (drop (length string - length ending) string) ending

-- The lines that `std::getline` gives up to its end, for a separator; a line that is not begun gives
-- none.
unfoldable pub get_lines : ℕ → Text → Text → Bool → List Text
get_lines sep [] line begun = if begun then line ∷ [] else []
get_lines sep (c ∷ s) line begun = elim (c == sep) [
  | true ↦ line ∷ get_lines sep s [] false
  | false ↦ get_lines sep s (line ++ c ∷ []) true
]

abbrev wildcard : Text → Text → Bool
wildcard hostname [] = false
wildcard hostname (c ∷ host) = c == b'*' && has_ending hostname host

-- One round of the loop of `isNoProxyHost`.
unfoldable pub matches : Text → Text → Bool
unfolding has_ending text_eq
matches hostname host =
    if is_empty host then false else text_eq host hostname || wildcard hostname host

unfoldable pub any_matches : Text → List Text → Bool
unfolding matches
any_matches hostname [] = false
any_matches hostname (host ∷ hosts) = matches hostname host || any_matches hostname hosts

-- isNoProxyHost; the first argument is getenv("no_proxy").
unfoldable pub is_no_proxy_host : Option Text → Text → Bool
unfolding get_lines any_matches
is_no_proxy_host none hostname = false
is_no_proxy_host (some no_proxy) hostname = any_matches hostname (get_lines b',' no_proxy [] false)

-- The padding was determined empirically.
abbrev pub max_query_size : ℕ
max_query_size = 4096 - 196

-- `lws_client_connect_info`, as far as it is filled.
pub record ConnectInfo : Type 0 where
  pub address : Text
  pub port : ℕ
  pub path : Text
  pub host : Text
  pub origin : Text
  pub method : Option Text
  pub protocol : Option Text

pub record Environment : Type 0 where
  pub parse_uri : Text → Option ParsedUri
  pub no_proxy : Option Text
  pub canonical_hostname : Text

-- Whether `disableProxy` was called, which nothing undoes, and the WebSocket protocol.
pub record Context : Type 0 where
  pub proxy_disabled : Bool
  pub ws_protocol_name : Text

module _ (env : Environment) where
  unfoldable pub parse : Text → Result Uri
  unfolding parse_with
  parse uri = parse_with (env.parse_uri uri)

  unfoldable pub make_connect_info : Uri → ConnectInfo
  make_connect_info uri = record {
    address = uri.host;
    port = if uri.port == 0 then 80 else uri.port;
    path = uri.path;
    host = uri.host;
    origin = env.canonical_hostname;
    method = none;
    protocol = none;
  }

  unfoldable pub bypass : Text → Context → Context
  unfolding is_no_proxy_host
  bypass host c =
      if is_no_proxy_host env.no_proxy host then record c { proxy_disabled = true } else c

  -- startHttpRequest: what is handed to lws_client_connect_via_info, and the context at that call.
  unfoldable pub start_http_request : Method → Text → Act Context ConnectInfo
  unfolding parse make_connect_info to_cstring bypass
  start_http_request method uri =
      let connected = do
        parsed ← lift (parse uri)
        name ← lift (to_cstring method)
        λ c. (ok (record (make_connect_info parsed) { method = some name }), bypass parsed.host c)
      in if ltb max_query_size (length uri)
        then raise (invalid_argument (bytes "uri too long (max ~4000 char)"))
        else connected

  -- connect; the third argument says whether lws_client_connect_via_info gives a connection.
  unfoldable pub connect : Text → Text → Bool → Act Context ConnectInfo
  unfolding parse make_connect_info bypass
  connect uri protocol connected c =
      (do
        parsed ← lift (parse uri)
        λ c'. (
          if connected
              then ok (record (make_connect_info parsed) { protocol = some protocol })
              else throw (runtime_error (bytes "server unreachable")),
          bypass parsed.host c',
        ))
        (record c { ws_protocol_name = protocol })
