-- ===== src/Ws/Client/Outcome.antt =====
-- What the future of a WebSocket client's connection gives.
use rockets.Prelude.{
  ◌≡◌, refl, sym, ◌∙◌, ap, Text, Option, none, some, List, [], ◌∷◌, ◌++◌, is_some, arith,
}
use rockets.Prelude.Result.{Exception, Result, ok, ok-injective, throw, runtime_error, ◌>>=◌}
use rockets.ClientContext.{Environment, ConnectInfo}
use rockets.ClientContext
use rockets.Ws.Types.{Lws, Fragment}
use rockets.Ws.Connection.{Connection, write_messages}
use rockets.Ws.Connection
use rockets.Ws.Client.{
  Promise, unset, fulfilled, failed, Client, try_to_set_exception, set_value,
  connection_error_message, Reason, client_established, client_connection_error, client_receive,
  client_writeable, with_connection, connected, get_future, connect, send_text, send_binary,
  proxy_failed, receive, with_poll, quietly, callback_ws,
}

-- The first of the outcomes, behind what the promise holds.
abbrev pub first_of : Promise → List Promise → Promise
first_of unset [] = unset
first_of unset (o ∷ os) = first_of o os
first_of fulfilled os = fulfilled
first_of (failed e) os = failed e

-- How an attempt to connect turned out, if an event says so.
abbrev pub outcome_of_connect : Result ConnectInfo → List Promise
outcome_of_connect (ok info) = []
outcome_of_connect (throw e) = failed e ∷ []

first_of_exception :
    (e : Exception) (p : Promise) → try_to_set_exception e p ≡ first_of p (failed e ∷ [])
unfolding try_to_set_exception
first_of_exception e unset = refl
first_of_exception e fulfilled = refl
first_of_exception e (failed f) = refl

first_of_value : (p q : Promise) → set_value p ≡ ok q → q ≡ first_of p (fulfilled ∷ [])
unfolding set_value
first_of_value unset q h = ground arith
first_of_value fulfilled q h = ground arith
first_of_value (failed f) q h = ground arith

first_of_none : (p : Promise) → first_of p [] ≡ p
first_of_none unset = refl
first_of_none fulfilled = refl
first_of_none (failed e) = refl

first_of-append :
    (p : Promise) (os qs : List Promise) → first_of p (os ++ qs) ≡ first_of (first_of p os) qs
first_of-append unset [] qs = refl
first_of-append unset (o ∷ os) qs = first_of-append o os qs
first_of-append fulfilled os qs = refl
first_of-append (failed e) os qs = refl

-- What happens to a client.
pub data Event (lws : Lws) : Type 0 where
  connects : Text → Text → Option lws.Wsi → Event lws
  sends sends_binary : Text → Event lws
  proxy_fails : Exception → Event lws
  reports : Reason → Event lws

module _ (env : Environment) (lws : Lws) {A : Type 0} where
  abbrev pub perform : Event lws → Client lws.Wsi A → Result (Client lws.Wsi A)
  perform (connects uri protocol given) c = connect lws env uri protocol given c
  perform (sends message) c = send_text lws message c
  perform (sends_binary message) c = send_binary lws message c
  perform (proxy_fails e) c = ok (proxy_failed lws e c)
  perform (reports reason) c = do (notices, c') ← callback_ws lws reason c; ok c'

  abbrev pub outcome : Event lws → Client lws.Wsi A → List Promise
  outcome (connects uri protocol given) c =
      outcome_of_connect (ClientContext.connect env uri protocol (is_some given) c.context).0
  outcome (proxy_fails e) c = failed e ∷ []
  outcome (reports client_established) c = fulfilled ∷ []
  outcome (reports (client_connection_error message)) c =
      failed (runtime_error (connection_error_message message)) ∷ []
  outcome _ c = []

  with_connection-promise :
      (f : Connection.Connection lws.Wsi → Connection.Connection lws.Wsi) (c c' : Client lws.Wsi A)
      → with_connection lws f c ≡ ok c'
      → c'.promise ≡ c.promise
  unfolding with_connection
  with_connection-promise f c c' h = ground arith

  receive-promise :
      (fragment : Fragment) (c c' : Client lws.Wsi A)
      → receive lws fragment c ≡ ok c'
      → c'.promise ≡ c.promise
  unfolding receive
  receive-promise fragment c c' h = ground arith

  connected-promise :
      (result : Result ConnectInfo) (given : Option lws.Wsi) (c : Client lws.Wsi A)
      → (connected lws result given c).promise ≡ first_of c.promise (outcome_of_connect result)
  unfolding connected
  connected-promise (throw e) given c = first_of_exception e c.promise
  connected-promise (ok info) none c = sym (first_of_none c.promise)
  connected-promise (ok info) (some w) c = sym (first_of_none c.promise)

  get_future-promise : (c c' : Client lws.Wsi A) → get_future lws c ≡ ok c' → c'.promise ≡ c.promise
  unfolding get_future
  get_future-promise c c' h = ground arith

  connect-promise :
      (uri protocol : Text) (given : Option lws.Wsi) (c c' : Client lws.Wsi A)
      → connect lws env uri protocol given c ≡ ok c'
      → c'.promise ≡ first_of c.promise (outcome (connects uri protocol given) c)
  unfolding connect
  connect-promise uri protocol given c c' h =
      get_future-promise _ c' h ∙ connected-promise _ given _

  quietly-cases :
      (result : Result (Client lws.Wsi A)) (c' : Client lws.Wsi A)
      → (quietly lws result >>= λ r. ok r.1) ≡ ok c'
      → result ≡ ok c'
  unfolding quietly
  quietly-cases (ok c) c' h = h
  quietly-cases (throw e) c' h = ground arith

  callback_ws-promise :
      (reason : Reason) (c c' : Client lws.Wsi A)
      → perform (reports reason) c ≡ ok c'
      → c'.promise ≡ first_of c.promise (outcome (reports reason) c)
  unfolding callback_ws with_poll set_value
  callback_ws-promise client_established c c' h = ground arith
  callback_ws-promise (client_connection_error message) c c' h =
      rw (← ok-injective h) (first_of_exception _ c.promise)
  callback_ws-promise (client_receive fragment) c c' h =
      receive-promise fragment c c' (quietly-cases _ c' h) ∙ sym (first_of_none c.promise)
  callback_ws-promise client_writeable c c' h =
      with_connection-promise (write_messages lws) c c' (quietly-cases _ c' h)
      ∙ sym (first_of_none c.promise)
  callback_ws-promise _ c c' h = rw (← ok-injective h) (sym (first_of_none c.promise))

  perform-promise :
      (e : Event lws) (c c' : Client lws.Wsi A)
      → perform e c ≡ ok c'
      → c'.promise ≡ first_of c.promise (outcome e c)
  unfolding send_text send_binary proxy_failed
  perform-promise (connects uri protocol given) c c' h = connect-promise uri protocol given c c' h
  perform-promise (sends message) c c' h =
      with_connection-promise _ c c' h ∙ sym (first_of_none c.promise)
  perform-promise (sends_binary message) c c' h =
      with_connection-promise _ c c' h ∙ sym (first_of_none c.promise)
  perform-promise (proxy_fails e) c c' h = rw (← ok-injective h) (first_of_exception e c.promise)
  perform-promise (reports reason) c c' h = callback_ws-promise reason c c' h

  -- From a client to the client `d`, by events that return, with the outcomes among them.
  pub data Run (d : Client lws.Wsi A) : Client lws.Wsi A → List Promise → Type 0 where
    stop : Run d d []
    event :
        {c c' : Client lws.Wsi A} {os all : List Promise} (e : Event lws)
        → perform e c ≡ ok c'
        → Run d c' os
        → all ≡ outcome e c ++ os
        → Run d c all

  -- Whatever happens to a client in whatever order, as long as nothing throws, the promise of its
  -- connection has the first outcome and keeps it: that the connection was established, or why an
  -- attempt to connect, the connection or the proxy failed. Without an outcome it is as before.
  pub promise-first :
      (d c : Client lws.Wsi A) (os : List Promise) → Run d c os → d.promise ≡ first_of c.promise os
  promise-first d c os stop = sym (first_of_none c.promise)
  promise-first d c os (event {c' = c'} {os = later} e done rest split) =
      promise-first d c' later rest
      ∙ ap (λ p. first_of p later) (perform-promise e c c' done)
      ∙ sym (first_of-append c.promise (outcome e c) later)
      ∙ ap (first_of c.promise) (sym split)
