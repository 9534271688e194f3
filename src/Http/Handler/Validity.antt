-- ===== src/Http/Handler/Validity.antt =====
-- That a request which is new, or gets a part of its body, keeps its connection valid.
use rockets.Prelude.{
  ◌≡◌, refl, ◌∙◌, sym, inl, inr, Text, bytes, text_eq, Option-cases, Bool, true, false, ◌&&◌, arith,
  if◌then◌else◌, Bool-cases,
}
use rockets.Prelude.Result.{ok, ok-injective, ◌>>=◌, >>=-eq-ok}
use rockets.Json.{JsonLib}
use rockets.Http.Types.{Future, Response}
use rockets.Http.Lws.{Lws}
use rockets.Http.Connection.{
  Connection, make_connection, append_body, set_response, set_cors_response_headers,
  request_write_callback, overwrite_request_path, get_path_without_leading_slash,
}
use rockets.Http.Registry.{find_endpoint}
use rockets.Http.Handler.{
  ConnectionHandler, handle_at, route, unfiltered, generate_response, prepare_response,
  prepare_cors_preflight_response, handle_new_request, handle_data, is_get, call_handler,
}
use rockets.Http.Handler.Lifecycle.{IsValid}

module _ {lws : Lws} where
  -- What a handler may change of a connection before it writes.
  record Keeps (c c' : Connection lws) : Type 0 where
    headers : c'.response_headers_sent ≡ c.response_headers_sent
    body : c'.response_body_sent ≡ c.response_body_sent
    final : c.response_finalized ≡ true → c'.response_finalized ≡ true

  Keeps-IsValid : (c c' : Connection lws) → Keeps c c' → IsValid c → IsValid c'
  Keeps-IsValid c c' k v = record {
    body_last = λ h. k.headers ∙ v.body_last (sym k.body ∙ h);
    headers_final = λ h. k.final (v.headers_final (sym k.headers ∙ h));
  }

  Keeps-trans : (c d e : Connection lws) → Keeps c d → Keeps d e → Keeps c e
  Keeps-trans c d e k l = record {
    headers = l.headers ∙ k.headers;
    body = l.body ∙ k.body;
    final = λ h. l.final (k.final h);
  }

  pub make_connection-IsValid :
      (w : lws.Wsi) (path : Text) (c : Connection lws) → make_connection w path ≡ ok c → IsValid c
  unfolding make_connection
  make_connection-IsValid w path c h = ground arith

  pub handle_data-IsValid : (s : Text) (c : Connection lws) → IsValid c → IsValid (handle_data s c)
  unfolding handle_data append_body
  handle_data-IsValid s c v = ground arith

  call_handler-Keeps :
      (h : ConnectionHandler) (c c' : Connection lws) (endpoint : Text) (response : Future Response)
      → handle_at h c endpoint ≡ ok (response, c')
      → c' ≡ c
  unfolding handle_at
  call_handler-Keeps h c c' endpoint response e =
      let (r, _, k) = >>=-eq-ok (call_handler h c endpoint) _ e in ground arith

  -- All that the making of a response changes of a connection is the path of its request.
  abbrev pub Repaths : Connection lws → Connection lws → Type 0
  Repaths c c' = (path : Text) × (c' ≡ overwrite_request_path path c)

  same-Repaths : (c : Connection lws) → Repaths c c
  unfolding overwrite_request_path
  same-Repaths c = (c.request.path, refl)

  -- The choice of `route`, behind its search for the endpoint.
  choice-Repaths :
      (found : Bool) (h : ConnectionHandler) (c c' : Connection lws) (path endpoint : Text)
      (refusal response : Future Response)
      → (if found then handle_at h (overwrite_request_path path c) endpoint else ok (refusal, c))
        ≡ ok (response, c')
      → Repaths c c'
  choice-Repaths true h c c' path endpoint refusal response e =
      (path, call_handler-Keeps h (overwrite_request_path path c) c' endpoint response e)
  choice-Repaths false h c c' path endpoint refusal response e =
      let same : c ≡ c' = ground arith in rw (← same) (same-Repaths c)

  route-Repaths :
      (h : ConnectionHandler) (c c' : Connection lws) (path : Text) (response : Future Response)
      → route h c path ≡ ok (response, c')
      → Repaths c c'
  unfolding route
  route-Repaths h c c' path response e =
      let (result, _, k) = >>=-eq-ok (find_endpoint h.registry c.request.method path) _ e in
      choice-Repaths _ h c c' _ result.endpoint _ response k

  unfiltered-Repaths :
      (lib : JsonLib) (h : ConnectionHandler) (c c' : Connection lws) (response : Future Response)
      → unfiltered lib h c ≡ ok (response, c')
      → Repaths c c'
  unfolding unfiltered
  unfiltered-Repaths lib h c c' response e =
      let path = get_path_without_leading_slash c in
      elim (Bool-cases (is_get c.request.method && text_eq path (bytes "registry"))) [
        | inl listing ↦ let same : c ≡ c' = ground arith in rw (← same) (same-Repaths c)
        | inr routed ↦ route-Repaths h c c' path response (ground arith)
      ]

  pub generate_response-Repaths :
      (lib : JsonLib) (h : ConnectionHandler) (c c' : Connection lws) (response : Future Response)
      → generate_response lib h c ≡ ok (response, c')
      → Repaths c c'
  unfolding generate_response
  generate_response-Repaths lib h c c' response e = elim (Option-cases h.filter) [
    | inl free ↦ unfiltered-Repaths lib h c c' response (ground arith)
    | inr (f, there) ↦ elim (Bool-cases (f.filter c.request)) [
      | inl stopped ↦ let same : c ≡ c' = ground arith in rw (← same) (same-Repaths c)
      | inr passed ↦ unfiltered-Repaths lib h c c' response (ground arith)
    ]
  ]

  Repaths-Keeps : (c c' : Connection lws) → Repaths c c' → Keeps c c'
  unfolding overwrite_request_path
  Repaths-Keeps c c' (path, same) = rw same (record { headers = refl; body = refl; final = λ f. f })

  set_response-Keeps :
      (future : Future Response) (c c' : Connection lws)
      → set_response future c ≡ ok c'
      → Keeps c (request_write_callback c')
  unfolding set_response request_write_callback
  set_response-Keeps future c c' e = ground arith

  -- The choice of `prepareResponse`, whether the response is set already.
  prepared-Keeps :
      (set : Bool) (lib : JsonLib) (h : ConnectionHandler) (c c' : Connection lws)
      → (if set then ok c else (do
        (response, d) ← generate_response lib h c
        d' ← set_response response d
        ok (request_write_callback d')))
        ≡ ok c'
      → Keeps c c'
  prepared-Keeps true lib h c c' e =
      rw (← ok-injective e) (record { headers = refl; body = refl; final = λ f. f })
  prepared-Keeps false lib h c c' e =
      let ((response, d), generated, k) = >>=-eq-ok (generate_response lib h c) _ e in
      let (d', put, same) = >>=-eq-ok (set_response response d) _ k in
      rw (← ok-injective same) (
        Keeps-trans c d (request_write_callback d')
          (Repaths-Keeps c d (generate_response-Repaths lib h c d response generated))
          (set_response-Keeps response d d' put))

  pub prepare_response-IsValid :
      (lib : JsonLib) (h : ConnectionHandler) (c c' : Connection lws)
      → prepare_response lib h c ≡ ok c'
      → IsValid c
      → IsValid c'
  unfolding prepare_response
  prepare_response-IsValid lib h c c' e v = Keeps-IsValid c c' (prepared-Keeps _ lib h c c' e) v

  preflight-IsValid :
      (lib : JsonLib) (h : ConnectionHandler) (c c' : Connection lws)
      → prepare_cors_preflight_response lib h c ≡ ok c'
      → IsValid c
      → IsValid c'
  unfolding prepare_cors_preflight_response set_cors_response_headers request_write_callback
  preflight-IsValid lib h c c' e v = ground arith

  pub handle_new_request-IsValid :
      (lib : JsonLib) (h : ConnectionHandler) (c c' : Connection lws)
      → handle_new_request lib h c ≡ ok c'
      → IsValid c
      → IsValid c'
  unfolding handle_new_request
  handle_new_request-IsValid lib h c c' e v =
      ground (arith, preflight-IsValid lib h c c', prepare_response-IsValid lib h c c')
