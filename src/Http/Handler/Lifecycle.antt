-- ===== src/Http/Handler/Lifecycle.antt =====
-- The order in which a response is written.
use rockets.Prelude.{
  ℕ, ◌+◌, ◌≤◌, ◌≡◌, refl, sym, ap, ◌∙◌, inl, inr, is_empty, Bool, true, false, arith, if◌then◌else◌,
  Bool-cases,
}
use rockets.Prelude.Int.{ℤ, pos}
use rockets.Prelude.Result.{Result, ok, ◌>>=◌, >>=-eq-ok, ok-injective}
use rockets.Http.Types.{Response, invalid}
use rockets.Http.Lws.{Lws}
use rockets.Http.Channel
use rockets.Http.Connection.{
  Connection, is_cors_preflight_request, can_have_http_body, is_response_set, is_response_ready,
  request_write_callback, take_response, finalize_response, finalized, send_headers, send_body,
  set_response,
}
use rockets.Http.Connection
use rockets.Http.Handler.{write_response}

module _ {lws : Lws} where
  -- How far the response has been written: 0 nothing, 1 its headers, 2 its body.
  unfoldable pub phase : Connection lws → ℕ
  phase c = if c.response_body_sent then 2 else if c.response_headers_sent then 1 else 0

  -- A body is written behind its headers only, and headers only of a final response.
  pub record IsValid (c : Connection lws) : Type 0 where
    pub body_last : c.response_body_sent ≡ true → c.response_headers_sent ≡ true
    pub headers_final : c.response_headers_sent ≡ true → c.response_finalized ≡ true

  finalized-cases :
      (c c' : Connection lws)
      → finalized c ≡ ok c'
      → (c'.response_finalized ≡ true)
        × (c'.response_headers_sent ≡ c.response_headers_sent)
        × (c'.response_body_sent ≡ c.response_body_sent)
  unfolding finalized finalize_response
  finalized-cases c c' h = elim (Bool-cases c.response_finalized) [
    | inl done ↦ ground arith
    | inr more ↦ ground arith
  ]

  write_headers-bind :
      (c : Connection lws)
      → c.response_headers_sent ≡ false
      → c.response_body_sent ≡ false
      → Connection.write_response_headers c ≡ (finalized c >>= λ d. ok (send_headers d))
  unfolding Connection.write_response_headers
  write_headers-bind c h k = ground arith

  send_headers-phase :
      (c d c' : Connection lws) (n : ℤ)
      → (d.response_finalized ≡ true) × (d.response_body_sent ≡ c.response_body_sent)
      → c.response_body_sent ≡ false
      → ◌≡◌ {A = Result (ℤ × Connection lws)} (ok (send_headers d)) (ok (n, c'))
      → IsValid c' × (phase c' ≡ 1)
  unfolding send_headers phase
  send_headers-phase c d c' n f k h = ground arith

  write_headers-phase :
      (c c' : Connection lws) (n : ℤ)
      → IsValid c
      → c.response_headers_sent ≡ false
      → Connection.write_response_headers c ≡ ok (n, c')
      → IsValid c' × (phase c ≡ 0) × (phase c' ≡ 1)
  write_headers-phase c c' n v unsent h =
      let quiet : c.response_body_sent ≡ false = ground arith in
      let (d, e, k) =
        >>=-eq-ok (finalized c) (λ d. ok (send_headers d))
          (sym (write_headers-bind c unsent quiet) ∙ h) in
      let f = finalized-cases c d e in
      let (v', p) = send_headers-phase c d c' n (f.0, f.2) quiet k in
      (v', unfold phase in ground arith, p)

  -- The response that the headers are written of: that of the connection, or what its future has.
  abbrev pub Final : Bool → Response → Connection lws → Type 0
  Final true r c = r ≡ c.response
  Final false r c = take_response c.delayed_response ≡ ok r

  -- What a write callback does, by whether the response is ready and its headers were sent: it asks
  -- for another, or writes the headers, or the body.
  abbrev pub Writes : Bool → Bool → Connection lws → Connection lws → ℤ → Type 0
  Writes false sent c c' n = (n ≡ pos 0) × (c' ≡ request_write_callback c)
  Writes true false c c' n =
      (r : Response) × Final c.response_finalized r c
      × ((n, c'.channel) ≡ Channel.write_response_headers lws c.cors_response_headers r c.channel)
  Writes true true c c' n =
      (is_empty c.response.body ≡ false)
      × ((n, c'.channel) ≡ Channel.write_response_body lws c.response c.channel)

  finalized-Final :
      (c d : Connection lws)
      → finalized c ≡ ok d
      → Final c.response_finalized d.response c
        × (d.channel ≡ c.channel)
        × (d.cors_response_headers ≡ c.cors_response_headers)
  unfolding finalized finalize_response
  finalized-Final c d h = elim (Bool-cases c.response_finalized) [
    | inl done ↦ let same : c ≡ d = ground arith in rw (done, ← same) (refl, refl, refl)
    | inr more ↦
        let (r, taken, k) =
          >>=-eq-ok (take_response c.delayed_response)
            (λ r.
              ok (record c { response = r; delayed_response = invalid; response_finalized = true }))
            (rw (more, finalized) at h) in
        let same : record c { response = r; delayed_response = invalid; response_finalized = true }
            ≡ d =
          ok-injective k in
        rw (more, ← same) (taken, refl, refl)
  ]

  body_written :
      (c c' : Connection lws) (n : ℤ)
      → Connection.write_response_body c ≡ ok (n, c')
      → Writes true true c c' n
  unfolding Connection.write_response_body send_body
  body_written c c' n h = elim (Bool-cases (is_empty c.response.body)) [
    | inl none_left ↦ absurd (ground arith)
    | inr some_left ↦
        let sent : send_body c ≡ (n, c') = ground arith in
        (some_left, sym (ap (λ x. (x.0, x.1.channel)) sent))
  ]

  headers_sent :
      (c c' d : Connection lws) (n : ℤ)
      → d.channel ≡ c.channel
      → d.cors_response_headers ≡ c.cors_response_headers
      → send_headers d ≡ (n, c')
      → (n, c'.channel)
        ≡ Channel.write_response_headers lws c.cors_response_headers d.response c.channel
  unfolding send_headers
  headers_sent c c' d n channel cors sent =
      sym (ap (λ x. (x.0, x.1.channel)) sent)
      ∙ ap (Channel.write_response_headers lws d.cors_response_headers d.response) channel
      ∙ ap (λ hs. Channel.write_response_headers lws hs d.response c.channel) cors

  headers_written :
      (c c' : Connection lws) (n : ℤ)
      → c.response_headers_sent ≡ false
      → c.response_body_sent ≡ false
      → Connection.write_response_headers c ≡ ok (n, c')
      → Writes true false c c' n
  unfolding send_headers
  headers_written c c' n unsent quiet h =
      let (d, e, k) =
        >>=-eq-ok (finalized c) (λ d. ok (send_headers d))
          (sym (write_headers-bind c unsent quiet) ∙ h) in
      let (final, channel, cors) = finalized-Final c d e in
      let sent : send_headers d ≡ (n, c') = ok-injective k in
      (d.response, final, headers_sent c c' d n channel cors sent)

  write_response-Writes :
      (ready sent : Bool) (c c' : Connection lws) (n : ℤ)
      → IsValid c
      → is_response_ready c ≡ ready
      → c.response_headers_sent ≡ sent
      → write_response c ≡ ok (n, c')
      → Writes ready sent c c' n
  unfolding write_response
  write_response-Writes false sent c c' n v waiting s h = (ground arith, ground arith)
  write_response-Writes true true c c' n v ready s h = body_written c c' n (ground arith)
  write_response-Writes true false c c' n v ready s h =
      headers_written c c' n s (ground arith) (ground arith)

  write_response-order :
      (c c' : Connection lws) (n : ℤ)
      → IsValid c
      → write_response c ≡ ok (n, c')
      → IsValid c'
        × (phase c' ≡ (if is_response_ready c then phase c + 1 else phase c))
        × (phase c' ≤ 2)
  unfolding write_response phase is_response_ready request_write_callback
      Connection.write_response_body
  write_response-order c c' n v h = elim (Bool-cases (is_response_ready c)) [
    | inl set ↦ elim (Bool-cases c.response_headers_sent) [
      | inl sent ↦ ground arith
      | inr unsent ↦ ground (arith, write_headers-phase c c' n v unsent)
    ]
    | inr waiting ↦ ground arith
  ]

  -- A write callback that returns leaves a valid connection valid. While the response is not ready it
  -- asks for another write callback and changes nothing else. Else it goes on by one phase: it
  -- writes the headers of the response, with the CORS headers of the connection, and then the body,
  -- which is not empty, to the channel. With the body written no write callback returns.
  pub write_response-phase :
      (c c' : Connection lws) (n : ℤ)
      → IsValid c
      → write_response c ≡ ok (n, c')
      → IsValid c'
        × (phase c' ≡ (if is_response_ready c then phase c + 1 else phase c))
        × (phase c' ≤ 2)
        × Writes (is_response_ready c) c.response_headers_sent c c' n
  write_response-phase c c' n v h =
      let (v', next, most) = write_response-order c c' n v h in
      (
        v',
        next,
        most,
        write_response-Writes (is_response_ready c) c.response_headers_sent c c' n v refl refl h,
      )
