-- ===== src/Http/Examples.antt =====
-- Tests of the HTTP modules, on a libwebsockets that keeps a log of the calls, and on a registry with
-- two endpoints.
use rockets.Prelude.{
  ◌≤◌, ◌≡◌, ◌≢◌, refl, ◌⊎◌, ◌↔◌, Text, bytes, text_eq, is_empty, true, false, not, ◌&&◌, ◌||◌, none,
  List, [], ◌∷◌, ◌++◌, length, arith, if◌then◌else◌, text_less, is_prefix, ◌+◌, text_eq_iff,
}
use rockets.Prelude.Int.{pos}
use rockets.Prelude.Result.{ok}
use rockets.Http.Types.{Method, get, post, all, Response, Future, ready, Header, is_ready}
use rockets.Http.Lws.{Lws}
use rockets.Http.FuncMap.{begins_with_path}
use rockets.Http.FuncMap
use rockets.Http.Registry.{
  Registry, IsValid, add, remove, contains, get_function, find_endpoint, get_allowed_methods,
}
use rockets.Http.Registry.Laws.{get_function-add}
use rockets.Http.Registry.Removal.{get_function-remove}
use rockets.Http.Registry.Search.{find_endpoint-longest}
use rockets.Http.Registry.Allowed.{join, supported, methods, get_allowed_methods-join}
use rockets.Http.Connection.{
  Connection, overwrite_request_path, is_response_ready, is_response_set, take_response, finalized,
  finalize_response, send_headers,
}
use rockets.Http.Connection
use rockets.Http.Channel
use rockets.Http.Handler.{RestFunc, ConnectionHandler, refuse, route, write_response, ends_in_slash}
use rockets.Http.Handler.Routing.{route-longest, route-root, refuse-cases}
use rockets.Http.Handler.Lifecycle.{write_response-phase, Writes, phase}
use rockets.Http.Handler.Lifecycle

-- The calls that were made, as numbers, and the texts written.
abbrev pub log_lws : Lws
log_lws = record {
  Wsi = List Text;
  hdr_total_length = λ w t. 0;
  hdr_copy = λ w t. [];
  uri_args = λ w. [];
  add_status = λ n w. (false, (n ∷ []) ∷ w);
  add_content_length = λ n w. (false, (n ∷ []) ∷ w);
  add_by_token = λ t v w. (false, v ∷ w);
  add_by_name = λ k v w. (false, (k ++ v) ∷ w);
  finalize_header = λ w. (false, w);
  write_headers = λ w. (false, bytes "headers" ∷ w);
  write_final = λ s w. (false, s ∷ w);
  callback_on_writable = λ w. w;
  transaction_completed = λ w. (false, w);
  http_response = λ w. 200;
  body_pending = λ pending w. w;
  client_read = λ w. (false, w);
}

abbrev pub echo : RestFunc
echo request = ready (record { code = 200; body = request.path; headers = [] })

abbrev two_endpoints : Registry RestFunc
two_endpoints = record {
  gets = (bytes "api/", echo) ∷ (bytes "/", echo) ∷ [];
  posts = [];
  puts = (bytes "api/", echo) ∷ [];
  patches = [];
  deletes = [];
  optionss = [];
}

abbrev pub handler : ConnectionHandler
handler = record { registry = two_endpoints; filter = none }

abbrev fresh : Connection log_lws
fresh = record {
  channel = [];
  request = record {
    method = get;
    path = bytes "/api/x";
    origin = [];
    host = [];
    query = [];
    body = [];
  };
  content_length = 0;
  cors_headers = record {
    origin = [];
    access_control_request_headers = [];
    access_control_request_method = get;
  };
  cors_response_headers = [];
  delayed_response = Future.invalid;
  delayed_response_set = false;
  response_finalized = false;
  response = record { code = 200; body = []; headers = [] };
  response_headers_sent = false;
  response_body_sent = false;
}

two_endpoints-IsValid : IsValid two_endpoints
unfolding text_less
two_endpoints-IsValid = record {
  gets = (refl, tt);
  posts = tt;
  puts = tt;
  patches = tt;
  deletes = tt;
  optionss = tt;
}

abbrev added : Registry RestFunc
added = record two_endpoints { posts = (bytes "new", echo) ∷ [] }

added_once : add two_endpoints post (bytes "new") echo ≡ ok (true, added)
unfolding add FuncMap.lookup FuncMap.set
added_once = refl

found_api :
    find_endpoint two_endpoints get (bytes "api/x")
    ≡ ok (record { found = true; endpoint = bytes "api/" })
unfolding find_endpoint FuncMap.find_in begins_with_path is_prefix
found_api = refl

api_there : get_function two_endpoints get (bytes "api/") ≡ ok echo
unfolding get_function FuncMap.lookup text_eq
api_there = refl

api_begins : begins_with_path (bytes "api/" ++ bytes "x") (bytes "api/") ≡ true
unfolding begins_with_path is_prefix
api_begins = refl

-- Two endpoints of at most four bytes.
api_longest :
    (other : Text)
    → contains two_endpoints get other ≡ ok true
    → begins_with_path (bytes "api/x") other ≡ true
    → length other ≤ 4
unfolding contains FuncMap.lookup
api_longest other h k =
    ground (arith, text_eq_iff (bytes "api/") other, text_eq_iff (bytes "/") other)

other_misses :
    (other : Text)
    → contains two_endpoints get other ≡ ok true
    → begins_with_path (bytes "x") other ≡ false
unfolding contains FuncMap.lookup begins_with_path is_prefix
other_misses other h =
    ground (arith, text_eq_iff (bytes "api/") other, text_eq_iff (bytes "/") other)

get_is_not_all : get ≢ all
get_is_not_all e = ground arith

get_function-add_example :
    (contains two_endpoints post (bytes "new") ≡ ok (not true))
    × ((other : Text)
        → get_function added post other ≡ (
            if true && text_eq (bytes "new") other
            then ok echo
            else get_function two_endpoints post other))
    × ((k : Method) (other : Text)
        → k ≢ post
        → get_function added k other ≡ get_function two_endpoints k other)
get_function-add_example =
    get_function-add two_endpoints added post (bytes "new") echo true added_once

get_function-remove_example :
    ((method : Method) (other : Text)
      → method ≢ all
      → contains (remove two_endpoints (bytes "api/")).1 method other
        ≡ (if text_eq (bytes "api/") other then ok false else contains two_endpoints method other))
    × ((method : Method) (other : Text)
        → text_eq (bytes "api/") other ≡ false
        → get_function (remove two_endpoints (bytes "api/")).1 method other
          ≡ get_function two_endpoints method other)
    × (((remove two_endpoints (bytes "api/")).0 ≡ true)
        ↔ ((method : Method) × (contains two_endpoints method (bytes "api/") ≡ ok true)))
get_function-remove_example = get_function-remove two_endpoints (bytes "api/") two_endpoints-IsValid

find_endpoint-longest_example :
    ((true ≡ true)
      × (contains two_endpoints get (bytes "api/") ≡ ok true)
      × (begins_with_path (bytes "api/x") (bytes "api/") ≡ true)
      × ((other : Text)
          → contains two_endpoints get other ≡ ok true
          → begins_with_path (bytes "api/x") other ≡ true
          → length other ≤ 4))
    ⊎ ((contains two_endpoints get (bytes "/") ≡ ok true)
        × (bytes "api/" ≡ bytes "/")
        × ((other : Text)
            → contains two_endpoints get other ≡ ok true
            → begins_with_path (bytes "api/x") other ≡ false))
find_endpoint-longest_example =
    find_endpoint-longest two_endpoints get (bytes "api/x")
      (record { found = true; endpoint = bytes "api/" }) two_endpoints-IsValid found_api

get_allowed_methods-join_example :
    get_allowed_methods two_endpoints (bytes "api/")
    ≡ join (bytes ", ") (supported two_endpoints (bytes "api/") methods)
get_allowed_methods-join_example = get_allowed_methods-join two_endpoints (bytes "api/")

route-longest_example : route handler fresh (bytes "api/x") ≡ (
    if is_empty (bytes "x") || ends_in_slash (bytes "api/")
    then ok
        (echo (record fresh.request { path = bytes "x" }), overwrite_request_path (bytes "x") fresh)
    else ok (refuse handler (bytes "api/x"), fresh))
route-longest_example =
    route-longest handler two_endpoints-IsValid fresh (bytes "api/") (bytes "x") echo
      (unfold text_eq in refl) api_there api_begins api_longest

route-root_example :
    ((func : RestFunc) × (get_function two_endpoints get (bytes "/") ≡ ok func)
      × (route handler fresh (bytes "x")
          ≡ ok (
            func (record fresh.request { path = bytes "x" }),
            overwrite_request_path (bytes "x") fresh,
          )))
    ⊎ ((contains two_endpoints get (bytes "/") ≡ ok false)
        × (route handler fresh (bytes "x") ≡ ok (refuse handler (bytes "x"), fresh)))
route-root_example =
    route-root handler two_endpoints-IsValid fresh (bytes "x") get_is_not_all other_misses

refuse-cases_example :
    ((supported two_endpoints (bytes "api/") methods ≢ [])
      × (refuse handler (bytes "api/")
          ≡ ready (record {
            code = 405;
            body = [];
            headers =
                (Header.allow, join (bytes ", ") (supported two_endpoints (bytes "api/") methods))
                ∷ [];
          })))
    ⊎ ((supported two_endpoints (bytes "api/") methods ≡ [])
        × (refuse handler (bytes "api/") ≡ ready (record { code = 404; body = []; headers = [] })))
refuse-cases_example = refuse-cases handler (bytes "api/")

-- A connection whose response is ready.
abbrev hello : Response
hello = record { code = 200; body = bytes "hello"; headers = [] }

abbrev answered : Connection log_lws
answered = record fresh { delayed_response = ready hello; delayed_response_set = true }

abbrev headers_written : Connection log_lws
headers_written = record answered {
  channel = bytes "headers" ∷ (5 ∷ []) ∷ (200 ∷ []) ∷ [];
  delayed_response = Future.invalid;
  response_finalized = true;
  response = hello;
  response_headers_sent = true;
}

answered-IsValid : Lifecycle.IsValid answered
answered-IsValid = record { body_last = λ e. ground arith; headers_final = λ e. ground arith }

written_once : write_response answered ≡ ok (pos 0, headers_written)
unfolding write_response is_response_set is_response_ready is_ready
    Connection.write_response_headers finalized finalize_response send_headers take_response
    Channel.write_response_headers
written_once = refl

not_set : is_response_set fresh ≡ false
unfolding is_response_set
not_set = refl

hello_ready : is_ready (ready hello) ≡ true
unfolding is_ready
hello_ready = refl

hello_taken : take_response (ready hello) ≡ ok hello
unfolding take_response
hello_taken = refl

write_response-phase_example :
    Lifecycle.IsValid headers_written
    × (phase headers_written
        ≡ (if is_response_ready answered then phase answered + 1 else phase answered))
    × (phase headers_written ≤ 2)
    × Writes (is_response_ready answered) false answered headers_written (pos 0)
write_response-phase_example =
    write_response-phase answered headers_written (pos 0) answered-IsValid written_once
