-- ===== src/Http/Client/Body.antt =====
-- How the response to a request is put together.
use rockets.Prelude.{
  ℕ, ◌≡◌, refl, sym, ap, ◌∙◌, Text, true, false, some, List, [], ◌∷◌, ◌++◌, ltb, arith,
}
use mathlib.Core.List.{append-nil, append_assoc}
use rockets.Prelude.Assoc.{find, put, erase, nat_eq, find-put, nat_self}
use rockets.Prelude.Int.{pos}
use rockets.Prelude.Result.{Result, ok, ◌>>=◌}
use rockets.Http.Types.{Response}
use rockets.Http.Lws.{Lws}
use rockets.Http.Channel.{read_content_length}
use rockets.Http.ClientChannel.{read_response_headers}
use rockets.Http.Client.{
  RequestHandler, Requests, Effect, calls, established_client_http, receive_client_http_read,
  completed_client_http, callback_http, with_request, established, finish_request, finish,
  read_headers, append_to_response_body, has_response_body,
}

abbrev pub joined : List Text → Text
joined [] = []
joined (x ∷ xs) = x ++ joined xs

module _ {lws : Lws} where
  -- The parts of a body, as libwebsockets reports them, and all that is called on the way.
  unfoldable pub receive_all : ℕ → List Text → Requests lws → Result (List Effect × Requests lws)
  unfolding callback_http
  receive_all a [] s = ok ([], s)
  receive_all a (x ∷ xs) s = do
    (code, effects, s') ← callback_http a (receive_client_http_read x) false s
    (later, last) ← receive_all a xs s'
    ok (effects ++ later, last)

  there_after_put :
      (a : ℕ) (h : RequestHandler lws) (s : Requests lws) → find a (put a h s) ≡ some h
  there_after_put a h s = ground (arith, find-put a a h s, nat_self a)

  abbrev extended : Text → RequestHandler lws → RequestHandler lws
  extended s h = record h { response = record h.response { body = h.response.body ++ s } }

  received :
      (a : ℕ) (x : Text) (h : RequestHandler lws) (s : Requests lws)
      → find a s ≡ some h
      → callback_http a (receive_client_http_read x) false s
        ≡ ok (pos 0, [], put a (extended x h) s)
  unfolding callback_http with_request append_to_response_body
  received a x h s there = rw (there, with_request) refl

  collected :
      (a : ℕ) (xs : List Text) (h : RequestHandler lws) (s : Requests lws)
      → find a s ≡ some h
      → (s' : Requests lws) × (receive_all a xs s ≡ ok ([], s'))
        × (find a s' ≡ some (extended (joined xs) h))
  unfolding receive_all
  collected a [] h s there = (
    s,
    refl,
    there
        ∙ ap (λ b. some (record h { response = record h.response { body = b } }))
            (sym (append-nil h.response.body)),
  )
  collected a (x ∷ xs) h s there =
      let (s', all, last) =
        collected a xs (extended x h) (put a (extended x h) s)
          (there_after_put a (extended x h) s) in
      (
        s',
        rw (received a x h s there, all) refl,
        last
            ∙ ap (λ b. some (record h { response = record h.response { body = b } }))
                (append_assoc h.response.body x (joined xs)),
      )

  completed :
      (a f : ℕ) (h : RequestHandler lws) (s : Requests lws)
      → find a s ≡ some h
      → h.callback ≡ some f
      → callback_http a completed_client_http false s
        ≡ ok (pos 0, calls f h.response ∷ [], erase a s)
  unfolding callback_http finish_request finish
  completed a f h s there called = rw (there, called) refl

  -- The response whose headers are there, with some body.
  abbrev pub response_with : RequestHandler lws → Text → Response
  response_with h body = record {
    code = lws.http_response h.channel;
    body = body;
    headers = read_response_headers lws h.channel;
  }

  still :
      (h : RequestHandler lws) (f : ℕ) → h.callback ≡ some f → (read_headers h).callback ≡ some f
  unfolding read_headers
  still h f called = called

  read_response :
      (h : RequestHandler lws) (s : Text)
      → (extended s (read_headers h)).response ≡ response_with h (h.response.body ++ s)
  unfolding read_headers
  read_response h s = refl

  -- A request whose response announces a length has its callback called once the response is
  -- complete, with the code and the headers that were there at its start and the parts of the body in
  -- the order in which they came; before that nothing is called, and after it the request is gone.
  pub callback_http-response :
      (a f : ℕ) (h : RequestHandler lws) (s : Requests lws) (xs : List Text)
      → find a s ≡ some h
      → h.callback ≡ some f
      → ltb 0 (read_content_length lws h.channel) ≡ true
      → (s₁ s₂ : Requests lws) × (callback_http a established_client_http false s
          ≡ ok (pos 0, [], s₁))
        × (receive_all a xs s₁ ≡ ok ([], s₂))
        × (callback_http a completed_client_http false s₂
            ≡ ok (pos 0, calls f (response_with h (h.response.body ++ joined xs)) ∷ [], erase a s₂))
  callback_http-response a f h s xs there called announced =
      let (s₂, all, last) =
        collected a xs (read_headers h) (put a (read_headers h) s)
          (there_after_put a (read_headers h) s) in
      (
        put a (read_headers h) s,
        s₂,
        began,
        all,
        completed a f (extended (joined xs) (read_headers h)) s₂ last (still h f called)
            ∙ ap (λ r. ok (pos 0, calls f r ∷ [], erase a s₂)) (read_response h (joined xs)),
      )
    where
      began :
          callback_http a established_client_http false s ≡ ok (pos 0, [], put a (read_headers h) s)
      began =
          unfold callback_http established has_response_body read_headers in
          rw (there, established, announced) refl
