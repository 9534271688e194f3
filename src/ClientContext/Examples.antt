-- ===== src/ClientContext/Examples.antt =====
-- Tests of the client's context: "a,*.b" is the list of hosts without a proxy, and each URI is parsed
-- as that of one host.
use rockets.Prelude.{◌≡◌, ◌↔◌, refl, bytes, true, false, none, some, [], ◌∷◌}
use rockets.Prelude.Int.{pos}
use rockets.Prelude.Result.{ok}
use rockets.Http.Types.{get, to_cstring}
use rockets.Http.Registry.Allowed.{join}
use rockets.Uri.{parse_with}
use rockets.ClientContext.{
  Environment, Context, ConnectInfo, is_no_proxy_host, start_http_request, parse, make_connect_info,
  bypass, get_lines, any_matches, matches, has_ending,
}
use rockets.ClientContext.NoProxy.{AnyMatches, is_no_proxy_host-join}
use rockets.ClientContext.Start.{Started, start_http_request-ok}

is_no_proxy_host-join_example :
    (is_no_proxy_host (some (join (bytes ",") (bytes "a" ∷ bytes "*.b" ∷ []))) (bytes "x.b") ≡ true)
    ↔ AnyMatches (bytes "x.b") (bytes "a" ∷ bytes "*.b" ∷ [])
is_no_proxy_host-join_example =
    is_no_proxy_host-join (bytes "a" ∷ bytes "*.b" ∷ []) (bytes "x.b")
      ((refl, tt), ((refl, (refl, (refl, tt))), tt))

abbrev env : Environment
env = record {
  parse_uri = λ s.
      some (record { protocol = bytes "http"; address = bytes "x.b"; port = pos 0; path = [] });
  no_proxy = some (bytes "a,*.b");
  canonical_hostname = bytes "me";
}

abbrev new_context : Context
new_context = record { proxy_disabled = false; ws_protocol_name = [] }

abbrev info : ConnectInfo
info = record {
  address = bytes "x.b";
  port = 80;
  path = bytes "/";
  host = bytes "x.b";
  origin = bytes "me";
  method = some (bytes "GET");
  protocol = none;
}

started_once :
    start_http_request env get (bytes "http://x.b") new_context
    ≡ (ok info, record new_context { proxy_disabled = true })
unfolding start_http_request parse parse_with make_connect_info to_cstring bypass is_no_proxy_host
    get_lines any_matches matches has_ending
started_once = refl

start_http_request-ok_example :
    Started env (bytes "http://x.b") new_context (record new_context { proxy_disabled = true }) info
start_http_request-ok_example =
    start_http_request-ok env get (bytes "http://x.b") new_context
      (record new_context { proxy_disabled = true }) info started_once
