-- ===== src/Http/Client/Promises.antt =====
-- Every promise of a client is satisfied, and once.
use rockets.Prelude.{
  ℕ, ◌+◌, ◌≡◌, refl, inl, inr, Text, Bool, some, List, [], arith, if◌then◌else◌, Bool-cases,
  Option-cases,
}
use rockets.Prelude.Assoc.{find, put, erase, nat_eq}
use rockets.Prelude.Int.{ℤ, pos, minus_one}
use rockets.Prelude.Result.{ok}
use rockets.Http.Lws.{Lws}
use rockets.Http.Client.{
  RequestHandler, Requests, Effect, Reason, write_headers, write_body, read_headers,
  append_to_response_body, finish, abort, has_response_body, finish_request, abort_request,
  with_request, established, connection_error, callback_http, Outcome, receive, text_or_empty,
  read_if_any, client_append_handshake_header, client_http_writeable, closed_client_http,
  client_connection_error, established_client_http, receive_client_http, completed_client_http,
  receive_client_http_read, is_not_a_real_connection_error,
}
use rockets.Http.Client.Table.{
  answered, owes, pending, IsPromised, owed, pending-erase, pending-put, erase-Unique, put-Unique,
  erase-Both, put-Both, find-Both, Both,
}

module _ {lws : Lws} where
  -- A step keeps the table in order, and what waits less was satisfied.
  pub record Settles (s : Requests lws) (effects : List Effect) (s' : Requests lws) : Type 0 where
    pub promised : IsPromised s'
    pub settled : (p : ℕ) → pending p s ≡ answered p effects + pending p s'

  -- What a request owes, an output of its own satisfies.
  finish-answers : (p : ℕ) (h : RequestHandler lws) → answered p (finish h) ≡ owes p h
  unfolding finish answered
  finish-answers p h = ground arith

  pub abort-answers :
      (p : ℕ) (message : Text) (h : RequestHandler lws)
      → Both h
      → answered p (abort message h) ≡ owes p h
  unfolding abort answered
  abort-answers p message h e = ground arith

  unchanged : (s : Requests lws) → IsPromised s → Settles s [] s
  unchanged s v = record { promised = v; settled = λ p. unfold answered in omega arith }

  -- A request that is replaced by one with its callbacks.
  replaced :
      (a : ℕ) (h h' : RequestHandler lws) (s : Requests lws)
      → find a s ≡ some h
      → h'.callback ≡ h.callback
      → h'.error_callback ≡ h.error_callback
      → IsPromised s
      → Settles s [] (put a h' s)
  unfolding answered
  replaced a h h' s there same same' v = record {
    promised = record {
      both = put-Both a h' s (ground (arith, find-Both a s h there v.both)) v.both;
      unique = put-Unique a h' s v.unique;
    };
    settled = λ p. omega (arith, pending-put p a h h' s there same);
  }

  erased :
      (a : ℕ) (s : Requests lws) (effects : List Effect)
      → IsPromised s
      → ((p : ℕ) → answered p effects ≡ owed p (find a s))
      → Settles s effects (erase a s)
  erased a s effects v said = record {
    promised = record { both = erase-Both a s v.both; unique = erase-Unique a s v.unique };
    settled = λ p. omega (arith, pending-erase p a s v.unique, said p);
  }

  finish_request-Settles :
      (a : ℕ) (s : Requests lws)
      → IsPromised s
      → Settles s (finish_request a s).0 (finish_request a s).1
  unfolding finish_request
  finish_request-Settles a s v = erased a s _ v said
    where
      said : (p : ℕ) → answered p (finish_request a s).0 ≡ owed p (find a s)
      said p = elim (Option-cases (find a s)) [
        | inl absent ↦ rw absent (unfold answered in refl)
        | inr (h, there) ↦ rw there (finish-answers p h)
      ]

  abort_request-Settles :
      (a : ℕ) (reason : Text) (s : Requests lws)
      → IsPromised s
      → Settles s (abort_request a reason s).0 (abort_request a reason s).1
  unfolding abort_request
  abort_request-Settles a reason s v = erased a s _ v said
    where
      said : (p : ℕ) → answered p (abort_request a reason s).0 ≡ owed p (find a s)
      said p = elim (Option-cases (find a s)) [
        | inl absent ↦ rw absent (unfold answered in refl)
        | inr (h, there) ↦ rw there (abort-answers p _ h (find-Both a s h there v.both))
      ]

  with_request-Settles :
      (a : ℕ) (f : RequestHandler lws → ℤ × RequestHandler lws) (s s' : Requests lws) (code : ℤ)
      (effects : List Effect)
      → ((h : RequestHandler lws) → (f h).1.callback ≡ h.callback)
      → ((h : RequestHandler lws) → (f h).1.error_callback ≡ h.error_callback)
      → with_request a f s ≡ ok (code, effects, s')
      → IsPromised s
      → Settles s effects s'
  unfolding with_request
  with_request-Settles a f s s' code effects same same' h v = elim (Option-cases (find a s)) [
    | inl absent ↦ absurd (ground arith)
    | inr (r, there) ↦
        let none_said : [] ≡ effects = ground arith in
        let now : put a (f r).1 s ≡ s' = ground arith in
        rw (← none_said, ← now) (replaced a r (f r).1 s there (same r) (same' r) v)
  ]

  then_finish :
      (a : ℕ) (s m : Requests lws)
      → Settles s [] m
      → Settles s (finish_request a m).0 (finish_request a m).1
  then_finish a s m first =
      let next = finish_request-Settles a m first.promised in
      record {
        promised = next.promised;
        settled = λ p. unfold answered in omega (arith, first.settled p, next.settled p);
      }

  established-Settles :
      (a : ℕ) (s s' : Requests lws) (code : ℤ) (effects : List Effect)
      → established a s ≡ ok (code, effects, s')
      → IsPromised s
      → Settles s effects s'
  established-Settles a s s' code effects h v = elim (Option-cases (find a s)) [
    | inl absent ↦
        let none_said : [] ≡ effects = unfold established in ground arith in
        let now : s ≡ s' = unfold established in ground arith in
        rw (← none_said, ← now) (unchanged s v)
    | inr (r, there) ↦
        let read =
          replaced a r (read_headers r) s there (unfold read_headers in refl)
            (unfold read_headers in refl) v in
        elim (Bool-cases (has_response_body (read_headers r))) [
          | inl more ↦
              let none_said : [] ≡ effects = unfold established in ground arith in
              let now : put a (read_headers r) s ≡ s' = unfold established in ground arith in
              rw (← none_said, ← now) read
          | inr all_there ↦
              let said : (finish_request a (put a (read_headers r) s)).0 ≡ effects =
                unfold established in ground arith in
              let now : (finish_request a (put a (read_headers r) s)).1 ≡ s' =
                unfold established in ground arith in
              rw (← said, ← now) (then_finish a s (put a (read_headers r) s) read)
        ]
  ]

  read_if_any-Settles : (a : ℕ) (s : Requests lws) → IsPromised s → Settles s [] (read_if_any a s)
  unfolding find put read_headers
  read_if_any-Settles a s v = elim (Option-cases (find a s)) [
    | inl absent ↦ rw (absent, read_if_any) (unchanged s v)
    | inr (r, there) ↦ rw (there, read_if_any) (replaced a r (read_headers r) s there refl refl v)
  ]

  connection_error-Settles :
      (a : ℕ) (message : Text) (s s' : Requests lws) (code : ℤ) (effects : List Effect)
      → connection_error a message s ≡ ok (code, effects, s')
      → IsPromised s
      → Settles s effects s'
  unfolding connection_error
  connection_error-Settles a message s s' code effects h v =
      elim (Bool-cases (is_not_a_real_connection_error message)) [
        | inl response ↦
            let said : (finish_request a (read_if_any a s)).0 ≡ effects = ground arith in
            let now : (finish_request a (read_if_any a s)).1 ≡ s' = ground arith in
            rw (← said, ← now) (then_finish a s (read_if_any a s) (read_if_any-Settles a s v))
        | inr error ↦
            let said : (abort_request a message s).0 ≡ effects = ground arith in
            let now : (abort_request a message s).1 ≡ s' = ground arith in
            rw (← said, ← now) (abort_request-Settles a message s v)
      ]

  outcome :
      (s : Requests lws) (r : List Effect × Requests lws) (c code : ℤ) (effects : List Effect)
      (s' : Requests lws)
      → ◌≡◌ {A = Outcome lws} (ok (c, r.0, r.1)) (ok (code, effects, s'))
      → Settles s r.0 r.1
      → Settles s effects s'
  outcome s r c code effects s' h settles =
      let said : r.0 ≡ effects = ground arith in
      let now : r.1 ≡ s' = ground arith in rw (← said, ← now) settles

  -- Whatever libwebsockets reports.
  pub callback_http-Settles :
      (a : ℕ) (reason : Reason) (failed : Bool) (s s' : Requests lws) (code : ℤ)
      (effects : List Effect)
      → callback_http a reason failed s ≡ ok (code, effects, s')
      → IsPromised s
      → Settles s effects s'
  unfolding callback_http
  callback_http-Settles a client_append_handshake_header failed s s' code effects h v =
      with_request-Settles a write_headers s s' code effects (λ r. unfold write_headers in refl)
        (λ r. unfold write_headers in refl) h v
  callback_http-Settles a client_http_writeable failed s s' code effects h v =
      with_request-Settles a write_body s s' code effects (λ r. unfold write_body in refl)
        (λ r. unfold write_body in refl) h v
  callback_http-Settles a closed_client_http failed s s' code effects h v =
      outcome s (abort_request a [] s) (pos 0) code effects s' h (abort_request-Settles a [] s v)
  callback_http-Settles a (client_connection_error message) failed s s' code effects h v =
      connection_error-Settles a (text_or_empty message) s s' code effects h v
  callback_http-Settles a established_client_http failed s s' code effects h v =
      established-Settles a s s' code effects h v
  callback_http-Settles a receive_client_http failed s s' code effects h v =
      outcome s ([], s) (if failed then minus_one else pos 0) code effects s' (unfold receive in h)
        (unchanged s v)
  callback_http-Settles a (receive_client_http_read text) failed s s' code effects h v =
      with_request-Settles a (λ r. (pos 0, append_to_response_body text r)) s s' code effects
        (λ r. unfold append_to_response_body in refl) (λ r. unfold append_to_response_body in refl)
        h v
  callback_http-Settles a completed_client_http failed s s' code effects h v =
      outcome s (finish_request a s) (pos 0) code effects s' h (finish_request-Settles a s v)
