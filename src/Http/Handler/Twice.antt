-- ===== src/Http/Handler/Twice.antt =====
-- The two write callbacks of a response with a body.
use rockets.Prelude.{◌≡◌, is_empty, true, false, arith}
use rockets.Prelude.Int.{ℤ}
use rockets.Prelude.Result.{Result, ok, ◌>>=◌}
use rockets.Http.Types.{Response, Future, is_ready}
use rockets.Http.Lws.{Lws}
use rockets.Http.Channel
use rockets.Http.Connection.{
  Connection, is_cors_preflight_request, can_have_http_body, is_response_set, is_response_ready,
  request_write_callback, take_response, finalize_response, finalized, send_headers, send_body,
  set_response,
}
use rockets.Http.Connection
use rockets.Http.Handler.{write_response}

module _ {lws : Lws} where
  -- The response is set, and two write callbacks follow.
  abbrev pub respond : Future Response → Connection lws → Result (ℤ × ℤ × lws.Wsi)
  respond future c = do
    c₁ ← set_response future c
    (n, c₂) ← write_response (request_write_callback c₁)
    (m, c₃) ← write_response c₂
    ok (n, m, c₃.channel)

  -- What the two callbacks are to do to the state of libwebsockets.
  abbrev pub written : Response → Connection lws → ℤ × ℤ × lws.Wsi
  written r c =
      let (n, w₁) =
        Channel.write_response_headers lws c.cors_response_headers r
          (lws.callback_on_writable c.channel) in
      let (m, w₂) = Channel.write_response_body lws r w₁ in (n, m, w₂)

  -- A response with a body that is ready when it is set on a fresh connection goes out in two
  -- write callbacks: the headers, with the CORS headers of the connection, and then the body.
  pub write_response-twice :
      (c : Connection lws) (future : Future Response) (r : Response)
      → is_response_set c ≡ false
      → c.response_headers_sent ≡ false
      → c.response_body_sent ≡ false
      → is_ready future ≡ true
      → take_response future ≡ ok r
      → is_empty r.body ≡ false
      → respond future c ≡ ok (written r c)
  unfolding set_response write_response Connection.write_response_headers
      Connection.write_response_body request_write_callback is_response_set is_response_ready
  write_response-twice c future r h₁ h₂ h₃ h₄ h₅ h₆ = ground arith
