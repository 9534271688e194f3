-- ===== src/ClientContext/Start.antt =====
-- What is handed to libwebsockets to start an HTTP request.
use rockets.Prelude.{
  ◌^◌, ◌≤◌, ◌<◌, ◌≡◌, inl, inr, Text, ◌||◌, some, length, ltb, ◌==◌, arith, if◌then◌else◌,
  Bool-cases, Option-cases,
}
use rockets.Prelude.Result.{ok}
use rockets.Prelude.Act.{Act, continue-eq-ok}
use rockets.Http.Types.{Method, to_cstring}
use rockets.Uri.{Uri, parse_with}
use rockets.Uri.Bounds.{parse_with-cases}
use rockets.ClientContext.{
  Environment, Context, ConnectInfo, parse, make_connect_info, bypass, start_http_request,
  is_no_proxy_host, max_query_size,
}

module _ (env : Environment) where
  -- A request was started for the URI, with this connection, and left this context.
  abbrev pub Started : Text → Context → Context → ConnectInfo → Type 0
  Started uri c c' info =
      (u : Uri) × (length uri ≤ 3900)
      × (parse env uri ≡ ok u)
      × (info.address ≡ u.host)
      × (info.port ≡ (if u.port == 0 then 80 else u.port))
      × (0 < info.port)
      × (info.port < 2 ^ 16)
      × (c'.proxy_disabled ≡ (c.proxy_disabled || is_no_proxy_host env.no_proxy u.host))

  parse-port : (uri : Text) (u : Uri) → parse env uri ≡ ok u → u.port < 2 ^ 16
  unfolding parse
  parse-port uri u h = elim (Option-cases (env.parse_uri uri)) [
    | inl bad ↦ absurd (unfold parse_with in ground arith)
    | inr (p, good) ↦ ((parse_with-cases p u).0 (rw good at h)).1
  ]

  abbrev then_connect : Uri → Text → Act Context ConnectInfo
  then_connect u name c =
      (ok (record (make_connect_info env u) { method = some name }), bypass env u.host c)

  started :
      (method : Method) (uri : Text) (u : Uri) (name : Text) (c c' : Context) (info : ConnectInfo)
      → length uri ≤ 3900
      → parse env uri ≡ ok u
      → then_connect u name c ≡ (ok info, c')
      → Started uri c c' info
  started method uri u name c c' info short parsed h = (
    u,
    short,
    parsed,
    unfold make_connect_info in ground arith,
    unfold make_connect_info in ground arith,
    unfold make_connect_info in ground arith,
    unfold make_connect_info in ground (arith, parse-port uri u parsed),
    unfold bypass in ground arith,
  )

  -- A call that starts an HTTP request got a URI of at most 3900 bytes that parses. It connects to the
  -- host and port of the URI, port 80 for none; the port is between 1 and 65535. From then on the
  -- context bypasses the proxy if it did before or if the list of the environment names the host.
  pub start_http_request-ok :
      (method : Method) (uri : Text) (c c' : Context) (info : ConnectInfo)
      → start_http_request env method uri c ≡ (ok info, c')
      → Started uri c c' info
  unfolding start_http_request
  start_http_request-ok method uri c c' info h =
      elim (Bool-cases (ltb max_query_size (length uri))) [
        | inl long ↦ absurd (ground arith)
        | inr short ↦
            let (u, parsed, k) =
              continue-eq-ok (parse env uri) _ (rw (short, start_http_request) at h) in
            let (name, named, l) = continue-eq-ok (to_cstring method) (then_connect u) k in
            started method uri u name c c' info (ground arith) parsed l
      ]
