-- ===== src/Server/Exchange.antt =====
-- A request over HTTP from its first callback to the last byte of its response.
use rockets.Prelude.{ℕ, ◌≡◌, refl, ap, Text, is_empty, true, false, none, some, List, ◌==◌, arith}
use rockets.Prelude.Assoc.{find, put, nat_eq, find-put}
use rockets.Prelude.Int.{ℤ, pos}
use rockets.Prelude.Result.{Result, ok, ok-injective, ◌>>=◌, >>=-eq-ok}
use rockets.Json.{JsonLib}
use rockets.Http.Types.{Future, Response, is_ready}
use rockets.Http.Lws.{Lws}
use rockets.Http.Connection.{
  Connection, make_connection, set_response, request_write_callback, is_response_set,
  can_have_http_body, is_cors_preflight_request, take_response, overwrite_request_path,
}
use rockets.Http.Handler.{
  ConnectionHandler, handle_new_request, prepare_response, generate_response, write_response,
}
use rockets.Http.Handler.Twice.{written, write_response-twice}
use rockets.Http.Handler.Validity.{generate_response-Repaths}
use rockets.Server.Protocols.{http, http_writeable, returning, handle_http}
use rockets.Server.Requests.{at_bound}

module _ (lib : JsonLib) {lws : Lws} (h : ConnectionHandler) where
  -- The request comes, and two write callbacks follow.
  abbrev pub exchange :
      ℕ → Text → lws.Wsi → List (ℕ × Connection lws) → Result (ℤ × ℤ × List (ℕ × Connection lws))
  exchange wsi path w m = do
    (code, m₁) ← handle_http lib h wsi (http path w) m
    (n, m₂) ← handle_http lib h wsi http_writeable m₁
    (k, m₃) ← handle_http lib h wsi http_writeable m₂
    ok (n, k, m₃)

  new_request :
      (c c' c₁ : Connection lws) (future : Future Response)
      → is_cors_preflight_request c ≡ false
      → can_have_http_body c ≡ false
      → is_response_set c ≡ false
      → generate_response lib h c ≡ ok (future, c')
      → set_response future c' ≡ ok c₁
      → handle_new_request lib h c ≡ ok (request_write_callback c₁)
  unfolding handle_new_request prepare_response
  new_request c c' c₁ future h₁ h₂ h₃ h₄ h₅ = rw (h₁, h₂, h₃, h₄, h₅) refl

  opens :
      (wsi : ℕ) (path : Text) (w : lws.Wsi) (m : List (ℕ × Connection lws)) (c c₁ : Connection lws)
      → make_connection w path ≡ ok c
      → find wsi m ≡ none
      → handle_new_request lib h c ≡ ok c₁
      → handle_http lib h wsi (http path w) m ≡ ok (pos 0, put wsi c₁ (put wsi c m))
  unfolding handle_http returning
  opens wsi path w m c c₁ made new done =
      rw
        (
          made,
          new,
          at_bound wsi (λ d. returning (handle_new_request lib h d)) (put wsi c m) c
              (ground (arith, find-put wsi wsi c m)),
          done,
        )
        refl

  writes :
      (wsi : ℕ) (m : List (ℕ × Connection lws)) (c c' : Connection lws) (n : ℤ)
      → find wsi m ≡ some c
      → write_response c ≡ ok (n, c')
      → handle_http lib h wsi http_writeable m ≡ ok (n, put wsi c' m)
  unfolding handle_http
  writes wsi m c c' n there done = rw (there, at_bound wsi write_response m c there, done) refl

  there_after_put :
      (wsi : ℕ) (c : Connection lws) (m : List (ℕ × Connection lws))
      → find wsi (put wsi c m) ≡ some c
  there_after_put wsi c m = ground (arith, find-put wsi wsi c m)

  -- A connection whose response is not set, and of which nothing has been written.
  abbrev IsFresh : Connection lws → Type 0
  IsFresh c =
      (is_response_set c ≡ false)
      × (c.response_headers_sent ≡ false)
      × (c.response_body_sent ≡ false)

  start :
      (w : lws.Wsi) (path : Text) (c : Connection lws) → make_connection w path ≡ ok c → IsFresh c
  unfolding make_connection is_response_set
  start w path c made = ground arith

  unset : (path : Text) (c : Connection lws) → IsFresh c → IsFresh (overwrite_request_path path c)
  unfolding overwrite_request_path is_response_set
  unset path c v = v

  -- The states of a connection between the steps of `respond`.
  two_writes :
      (c : Connection lws) (future : Future Response) (r : Response)
      → IsFresh c
      → is_ready future ≡ true
      → take_response future ≡ ok r
      → is_empty r.body ≡ false
      → (c₁ c₂ c₃ : Connection lws) × (set_response future c ≡ ok c₁)
        × (write_response (request_write_callback c₁) ≡ ok ((written r c).0, c₂))
        × (write_response c₂ ≡ ok ((written r c).1, c₃))
        × (c₃.channel ≡ (written r c).2)
  two_writes c future r v done value full =
      let all = write_response-twice c future r v.0 v.1 v.2 done value full in
      let (c₁, set, k₁) = >>=-eq-ok (set_response future c) _ all in
      let ((n, c₂), first, k₂) = >>=-eq-ok (write_response (request_write_callback c₁)) _ k₁ in
      let ((k, c₃), second, k₃) = >>=-eq-ok (write_response c₂) _ k₂ in
      let q = ok-injective k₃ in
      (
        c₁,
        c₂,
        c₃,
        set,
        coded first (ap (λ t. t.0) q),
        coded second (ap (λ t. t.1) q),
        ap (λ t. t.2) q,
      )
    where
      coded :
          {result : Result (ℤ × Connection lws)} {d : Connection lws} {n n' : ℤ}
          → result ≡ ok (n, d)
          → n ≡ n'
          → result ≡ ok (n', d)
      coded e same = rw (← same) e

  -- What is left of the table: the connection with its response written, and all others as before.
  abbrev pub Served : ℕ → lws.Wsi → List (ℕ × Connection lws) → List (ℕ × Connection lws) → Type 0
  Served wsi w m m₃ =
      ((d : Connection lws) × (find wsi m₃ ≡ some d) × (d.channel ≡ w))
      × ((j : ℕ) → (wsi == j) ≡ false → find j m₃ ≡ find j m)

  after_four_puts :
      (wsi : ℕ) (c₀ c₁ c₂ c₃ : Connection lws) (m : List (ℕ × Connection lws))
      → Served wsi c₃.channel m (put wsi c₃ (put wsi c₂ (put wsi c₁ (put wsi c₀ m))))
  after_four_puts wsi c₀ c₁ c₂ c₃ m = (
    (c₃, there_after_put wsi c₃ _, refl),
    λ j other. ground (
      arith,
      find-put wsi j c₃ (put wsi c₂ (put wsi c₁ (put wsi c₀ m))),
      find-put wsi j c₂ (put wsi c₁ (put wsi c₀ m)),
      find-put wsi j c₁ (put wsi c₀ m),
      find-put wsi j c₀ m,
    ),
  )

  -- A request without a body that is no CORS preflight, on a connection that has none, and for which
  -- a response with a body is ready at once, is answered in two write callbacks: libwebsockets gets
  -- the headers and then the body of that response, and no other connection changes.
  pub exchange-Served :
      (wsi : ℕ) (path : Text) (w : lws.Wsi) (m : List (ℕ × Connection lws)) (c c' : Connection lws)
      (future : Future Response) (r : Response)
      → make_connection w path ≡ ok c
      → find wsi m ≡ none
      → is_cors_preflight_request c ≡ false
      → can_have_http_body c ≡ false
      → generate_response lib h c ≡ ok (future, c')
      → is_ready future ≡ true
      → take_response future ≡ ok r
      → is_empty r.body ≡ false
      → (m₃ : List (ℕ × Connection lws)) × (exchange wsi path w m
          ≡ ok ((written r c').0, (written r c').1, m₃))
        × Served wsi (written r c').2 m m₃
  exchange-Served wsi path w m c c' future r made new plain empty generated done value full =
      let (p, same) = generate_response-Repaths lib h c c' future generated in
      let (c₁, c₂, c₃, set, first, second, channel) =
        two_writes c' future r (rw same (unset p c (start w path c made))) done value full in
      (
        put wsi c₃ (put wsi c₂ (put wsi (request_write_callback c₁) (put wsi c m))),
        rw
            (
              opens wsi path w m c (request_write_callback c₁) made new
                  (new_request c c' c₁ future plain empty (start w path c made).0 generated set),
              writes wsi (put wsi (request_write_callback c₁) (put wsi c m))
                  (request_write_callback c₁) c₂ _ (there_after_put wsi _ _) first,
              writes wsi (put wsi c₂ (put wsi (request_write_callback c₁) (put wsi c m))) c₂ c₃ _
                  (there_after_put wsi c₂ _) second,
            )
            refl,
        rw (← channel) (after_four_puts wsi c (request_write_callback c₁) c₂ c₃ m),
      )
