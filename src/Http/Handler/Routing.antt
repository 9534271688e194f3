-- ===== src/Http/Handler/Routing.antt =====
-- Which REST function answers a path, and which paths are refused.
use rockets.Prelude.{
  ◌≤◌, ◌≡◌, ◌≢◌, refl, ◌⊎◌, inl, inr, Text, bytes, text_eq, is_empty, is_prefix, true, false, ◌||◌,
  [], ◌∷◌, ◌++◌, length, length-append, drop-length-append, arith, if◌then◌else◌, Option-cases,
}
use rockets.Prelude.Result.{ok}
use rockets.Http.Types.{Method, ready, all, Header}
use rockets.Http.Lws.{Lws}
use rockets.Http.FuncMap
use rockets.Http.FuncMap.{begins_with_path}
use rockets.Http.FuncMap.Order.{find_in_sound}
use rockets.Http.Registry.Allowed.{
  join, methods, supported, get_allowed_methods-join, supported_nonempty,
}
use rockets.Http.Registry.{Registry, contains, get_function, find_endpoint, IsValid}
use rockets.Http.Registry.Laws.{methods_at-cases}
use rockets.Http.Registry.Search.{find_endpoint-longest, find_endpoint-total}
use rockets.Http.Connection.{Connection, overwrite_request_path}
use rockets.Http.Handler.{
  RestFunc, ConnectionHandler, remove_endpoint_from_path, ends_in_slash, call_handler, handle_at,
  refuse, route,
}

-- What follows a prefix.
prefix_rest : (s t : Text) → is_prefix s t ≡ true → (r : Text) × (t ≡ s ++ r)
unfolding is_prefix
prefix_rest [] t h = (t, refl)
prefix_rest (a ∷ s) [] h = absurd (ground arith)
prefix_rest (a ∷ s) (b ∷ t) h = let (r, e) = prefix_rest s t (ground arith) in (r, ground arith)

-- Two prefixes of one length of one string are the same.
prefix_unique :
    (s t p : Text) → is_prefix s p ≡ true → is_prefix t p ≡ true → length s ≡ length t → s ≡ t
unfolding is_prefix
prefix_unique [] [] p h k e = refl
prefix_unique [] (b ∷ t) p h k e = absurd (omega arith)
prefix_unique (a ∷ s) [] p h k e = absurd (omega arith)
prefix_unique (a ∷ s) (b ∷ t) [] h k e = cc
prefix_unique (a ∷ s) (b ∷ t) (c ∷ p) h k e = ground (arith, prefix_unique s t p)

begins_unique :
    (s t p : Text)
    → begins_with_path p s ≡ true
    → begins_with_path p t ≡ true
    → length s ≡ length t
    → s ≡ t
unfolding begins_with_path
begins_unique [] [] p h k e = refl
begins_unique [] (b ∷ t) p h k e = absurd (omega arith)
begins_unique (a ∷ s) [] p h k e = absurd (omega arith)
begins_unique (a ∷ s) (b ∷ t) p h k e = prefix_unique (a ∷ s) (b ∷ t) p h k e

-- The path that a REST function sees is what follows its endpoint.
remove_endpoint-append :
    (endpoint rest : Text)
    → text_eq endpoint (bytes "/") ≡ false
    → remove_endpoint_from_path endpoint (endpoint ++ rest) ≡ rest
unfolding remove_endpoint_from_path
remove_endpoint-append endpoint [] ne = ground (arith, length-append endpoint [])
remove_endpoint-append endpoint (a ∷ rest) ne =
    ground (arith, length-append endpoint (a ∷ rest), drop-length-append endpoint (a ∷ rest))

contains_of_get :
    {F : Type 0} (r : Registry F) (method : Method) (endpoint : Text) (func : F)
    → get_function r method endpoint ≡ ok func
    → contains r method endpoint ≡ ok true
unfolding get_function contains
contains_of_get r method endpoint func e = ground arith

module _ {lws : Lws} (h : ConnectionHandler) (valid : IsValid h.registry) (c : Connection lws) where
  -- The search gives the registered endpoint that begins the path, if none longer does.
  find_endpoint_is :
      (endpoint path : Text)
      → contains h.registry c.request.method endpoint ≡ ok true
      → begins_with_path path endpoint ≡ true
      → ((other : Text)
          → contains h.registry c.request.method other ≡ ok true
          → begins_with_path path other ≡ true
          → length other ≤ length endpoint)
      → find_endpoint h.registry c.request.method path
        ≡ ok (record { found = true; endpoint = endpoint })
  find_endpoint_is endpoint path there begins longest =
      let (result, e) = find_endpoint-total h.registry c.request.method path endpoint true there in
      elim (find_endpoint-longest h.registry c.request.method path result valid e) [
        | inl (found, at, starts, top) ↦
            let same : result.endpoint ≡ endpoint =
              begins_unique result.endpoint endpoint path starts begins
                (omega (arith, longest result.endpoint at starts, top endpoint there begins)) in
            ground arith
        | inr (_, _, misses) ↦ absurd (ground (arith, misses endpoint there))
      ]

  -- For a valid registry: a path is answered by the longest endpoint of its method that begins it, if
  -- the path is that endpoint or the endpoint ends in a slash; the REST function sees what follows the
  -- endpoint as its path. If that endpoint begins the path and neither holds, the request is refused,
  -- whatever other endpoints begin the path. The endpoint "/" is left out here.
  pub route-longest :
      (endpoint rest : Text) (func : RestFunc)
      → text_eq endpoint (bytes "/") ≡ false
      → get_function h.registry c.request.method endpoint ≡ ok func
      → begins_with_path (endpoint ++ rest) endpoint ≡ true
      → ((other : Text)
          → contains h.registry c.request.method other ≡ ok true
          → begins_with_path (endpoint ++ rest) other ≡ true
          → length other ≤ length endpoint)
      → route h c (endpoint ++ rest) ≡ (
          if is_empty rest || ends_in_slash endpoint
          then ok (func (record c.request { path = rest }), overwrite_request_path rest c)
          else ok (refuse h (endpoint ++ rest), c))
  unfolding route handle_at call_handler
  route-longest endpoint rest func ne there begins longest = ground (
    arith,
    find_endpoint_is endpoint (endpoint ++ rest)
        (contains_of_get h.registry c.request.method endpoint func there) begins longest,
    remove_endpoint-append endpoint rest ne,
  )

  -- For a valid registry and a method other than `ALL`: a path that no endpoint of its method begins
  -- goes, unchanged, to the REST function of "/" if the method has one, and is refused otherwise.
  pub route-root :
      (path : Text)
      → c.request.method ≢ all
      → ((other : Text)
          → contains h.registry c.request.method other ≡ ok true
          → begins_with_path path other ≡ false)
      → ((func : RestFunc) × (get_function h.registry c.request.method (bytes "/") ≡ ok func)
          × (route h c path
              ≡ ok (func (record c.request { path = path }), overwrite_request_path path c)))
        ⊎ ((contains h.registry c.request.method (bytes "/") ≡ ok false)
            × (route h c path ≡ ok (refuse h path, c)))
  unfolding route handle_at call_handler remove_endpoint_from_path ends_in_slash contains
      get_function find_endpoint text_eq
  route-root path ne misses = elim (methods_at-cases h.registry c.request.method) [
    | inl (e, _) ↦ absurd (ne e)
    | inr (m, e) ↦ elim (Option-cases (FuncMap.find_in path m)) [
      | inr (k, found) ↦ absurd (ground (arith, find_in_sound path k m found, misses k))
      | inl miss ↦ elim (Option-cases (FuncMap.lookup (bytes "/") m)) [
        | inl no_root ↦ inr (ground arith, ground arith)
        | inr (func, root) ↦ inl (func, ground arith, ground arith)
      ]
    ]
  ]

-- A refusal is a 405 with the "Allow" header if some method has the path as an endpoint, and a 404
-- with no header if none has.
pub refuse-cases :
    (h : ConnectionHandler) (path : Text)
    → ((supported h.registry path methods ≢ [])
        × (refuse h path
            ≡ ready (record {
              code = 405;
              body = [];
              headers = (Header.allow, join (bytes ", ") (supported h.registry path methods)) ∷ [];
            })))
      ⊎ ((supported h.registry path methods ≡ [])
          × (refuse h path ≡ ready (record { code = 404; body = []; headers = [] })))
unfolding refuse
refuse-cases h path = elim (supported_nonempty h.registry path) [
  | inl e ↦ inr (e, rw (get_allowed_methods-join h.registry path, e) refl)
  | inr (ne, e) ↦ inl (ne, rw (get_allowed_methods-join h.registry path, e) refl)
]
