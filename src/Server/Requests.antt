-- ===== src/Server/Requests.antt =====
-- The connections of HTTP that a server keeps are valid.
use rockets.Prelude.{
  ℕ, ◌≡◌, refl, sym, ◌∙◌, inl, inr, Bool, true, false, some, List, is_some, arith, if◌then◌else◌,
  ◌==◌, Bool-cases, Option-cases,
}
use rockets.Prelude.Assoc.{find, put, emplace, erase, nat_eq, find-put, find-erase}
use rockets.Prelude.Int.{ℤ, pos, minus_one}
use rockets.Prelude.Result.{Result, ok, throw, ◌>>=◌, >>=-eq-ok}
use rockets.Json.{JsonLib}
use rockets.Http.Lws.{Lws}
use rockets.Http.Connection.{Connection, make_connection}
use rockets.Http.Handler.{
  ConnectionHandler, handle_new_request, handle_data, prepare_response, write_response,
}
use rockets.Http.Handler.Lifecycle.{IsValid, write_response-phase}
use rockets.Http.Handler.Validity.{
  make_connection-IsValid, handle_data-IsValid, prepare_response-IsValid,
  handle_new_request-IsValid,
}
use rockets.Server.Protocols.{
  HttpReason, http, http_body, http_body_completion, http_writeable, http_drop_protocol,
  closed_http, at_connection, returning, handle_http,
}

module _ {lws : Lws} where
  -- Every entry of the table is a valid connection.
  abbrev pub AllValid : List (ℕ × Connection lws) → Type 0
  AllValid m = (wsi : ℕ) (c : Connection lws) → find wsi m ≡ some c → IsValid c

  put-AllValid :
      (wsi : ℕ) (c : Connection lws) (m : List (ℕ × Connection lws))
      → IsValid c
      → AllValid m
      → AllValid (put wsi c m)
  put-AllValid wsi c m v all j d f = elim (Bool-cases (wsi == j)) [
    | inl same ↦ let e : c ≡ d = ground (arith, find-put wsi j c m) in rw (← e) v
    | inr other ↦ all j d (ground (arith, find-put wsi j c m))
  ]

  emplace-AllValid :
      (wsi : ℕ) (c : Connection lws) (m : List (ℕ × Connection lws))
      → IsValid c
      → AllValid m
      → AllValid (emplace wsi c m)
  unfolding emplace
  emplace-AllValid wsi c m v all = elim (Bool-cases (is_some (find wsi m))) [
    | inl there ↦ rw there all
    | inr new ↦ rw new (put-AllValid wsi c m v all)
  ]

  erase-AllValid : (wsi : ℕ) (m : List (ℕ × Connection lws)) → AllValid m → AllValid (erase wsi m)
  erase-AllValid wsi m all j d f = all j d (ground (arith, find-erase wsi j m))

  pub at_bound :
      (wsi : ℕ) (f : Connection lws → Result (ℤ × Connection lws)) (m : List (ℕ × Connection lws))
      (c : Connection lws)
      → find wsi m ≡ some c
      → at_connection wsi f m ≡ (f c >>= λ r. ok (r.0, put wsi r.1 m))
  unfolding at_connection
  at_bound wsi f m c there = rw (there, at_connection) refl

  at_found :
      (wsi : ℕ) (f : Connection lws → Result (ℤ × Connection lws))
      (m m' : List (ℕ × Connection lws)) (code : ℤ) (c : Connection lws)
      → find wsi m ≡ some c
      → at_connection wsi f m ≡ ok (code, m')
      → (r : ℤ × Connection lws) × (f c ≡ ok r) × (put wsi r.1 m ≡ m')
  at_found wsi f m m' code c there e =
      let (r, called, same) =
        >>=-eq-ok (f c) (λ r. ok (r.0, put wsi r.1 m)) (sym (at_bound wsi f m c there) ∙ e) in
      (r, called, ground arith)

  at_connection-AllValid :
      (wsi : ℕ) (f : Connection lws → Result (ℤ × Connection lws))
      (m m' : List (ℕ × Connection lws)) (code : ℤ)
      → ((c c' : Connection lws) (n : ℤ) → f c ≡ ok (n, c') → IsValid c → IsValid c')
      → at_connection wsi f m ≡ ok (code, m')
      → AllValid m
      → AllValid m'
  unfolding at_connection
  at_connection-AllValid wsi f m m' code keeps e all = elim (Option-cases (find wsi m)) [
    | inl none_there ↦ absurd (ground arith)
    | inr (c, there) ↦
        let ((n, c'), called, same) = at_found wsi f m m' code c there e in
        rw (← same) (put-AllValid wsi c' m (keeps c c' n called (all wsi c there)) all)
  ]

  returning-cases :
      (r : Result (Connection lws)) (c' : Connection lws) (n : ℤ)
      → returning r ≡ ok (n, c')
      → r ≡ ok c'
  unfolding returning
  returning-cases (ok c) c' n h = ground arith
  returning-cases (throw e) c' n h = ground arith

  -- The choice of a new request, whether its connection is known already.
  opened-AllValid :
      (known : Bool) (lib : JsonLib) (handler : ConnectionHandler) (wsi : ℕ) (c : Connection lws)
      (m m' : List (ℕ × Connection lws)) (code : ℤ)
      → (if known
          then ok (minus_one, m)
          else at_connection wsi
              (λ d. returning (handle_new_request lib handler d))
              (emplace wsi c m))
        ≡ ok (code, m')
      → IsValid c
      → AllValid m
      → AllValid m'
  opened-AllValid true lib handler wsi c m m' code e v all =
      let same : m ≡ m' = ground arith in rw (← same) all
  opened-AllValid false lib handler wsi c m m' code e v all =
      at_connection-AllValid wsi (λ d. returning (handle_new_request lib handler d))
        (emplace wsi c m) m' code
        (λ d d' n h w. handle_new_request-IsValid lib handler d d' (returning-cases _ d' n h) w) e
        (emplace-AllValid wsi c m v all)

  -- The choice of a write callback, whether its connection is known.
  written-AllValid :
      (known : Bool) (wsi : ℕ) (m m' : List (ℕ × Connection lws)) (code : ℤ)
      → (if known then at_connection wsi write_response m else ok (pos 0, m)) ≡ ok (code, m')
      → AllValid m
      → AllValid m'
  written-AllValid true wsi m m' code e all =
      at_connection-AllValid wsi write_response m m' code
        (λ c c' n h v. (write_response-phase c c' n v h).0) e all
  written-AllValid false wsi m m' code e all = let same : m ≡ m' = ground arith in rw (← same) all

  pub handle_http-AllValid :
      (lib : JsonLib) (handler : ConnectionHandler) (wsi : ℕ) (reason : HttpReason lws.Wsi)
      (m m' : List (ℕ × Connection lws)) (code : ℤ)
      → handle_http lib handler wsi reason m ≡ ok (code, m')
      → AllValid m
      → AllValid m'
  unfolding handle_http
  handle_http-AllValid lib handler wsi (http path w) m m' code e all =
      let (c, made, k) = >>=-eq-ok (make_connection {lws = lws} w path) _ e in
      opened-AllValid _ lib handler wsi c m m' code k (make_connection-IsValid w path c made) all
  handle_http-AllValid lib handler wsi (http_body s) m m' code e all =
      at_connection-AllValid wsi (λ c. ok (pos 0, handle_data s c)) m m' code
        (λ c c' n h v.
          let same : handle_data s c ≡ c' = ground arith in rw (← same) (handle_data-IsValid s c v))
        e all
  handle_http-AllValid lib handler wsi http_body_completion m m' code e all =
      at_connection-AllValid wsi (λ c. returning (prepare_response lib handler c)) m m' code
        (λ c c' n h v. prepare_response-IsValid lib handler c c' (returning-cases _ c' n h) v) e all
  handle_http-AllValid lib handler wsi http_writeable m m' code e all =
      written-AllValid _ wsi m m' code e all
  handle_http-AllValid lib handler wsi http_drop_protocol m m' code e all =
      let same : erase wsi m ≡ m' = ground arith in rw (← same) (erase-AllValid wsi m all)
  handle_http-AllValid lib handler wsi closed_http m m' code e all =
      let same : erase wsi m ≡ m' = ground arith in rw (← same) (erase-AllValid wsi m all)
  handle_http-AllValid lib handler wsi _ m m' code e all =
      let same : m ≡ m' = ground arith in rw (← same) all
