-- ===== src/Http/Client/Runs.antt =====
-- Every promise of a client is satisfied, and once, whatever libwebsockets reports in which order.
use rockets.Prelude.{
  ℕ, ◌+◌, ◌≡◌, refl, Text, Bool, Option, none, some, List, [], ◌∷◌, ◌++◌, arith, if◌then◌else◌,
  ◌==◌,
}
use rockets.Prelude.Assoc.{find, emplace, put, nat_eq}
use rockets.Prelude.Int.{ℤ}
use rockets.Prelude.Result.{ok}
use rockets.Http.Lws.{Lws}
use rockets.Http.Client.{
  Requests, Effect, Reason, make_handler, start_request, request, callback_http,
  abort_pending_requests, abort,
}
use rockets.Http.Client.Table.{
  count, answered, answered-append, pending, pending-emplace, IsPromised, put-Unique, put-Both,
}
use rockets.Http.Client.Promises.{callback_http-Settles, abort-answers}

module _ {lws : Lws} where
  -- libwebsockets gives a connection that no request has.
  abbrev pub IsNew : Option (ℕ × lws.Wsi) → Requests lws → Type 0
  IsNew none s = Unit
  IsNew (some (address, wsi)) s = find address s ≡ none

  -- From a table to the table `t`, with the promises of the requests that were made and all outputs.
  pub data Run (t : Requests lws) : Requests lws → List ℕ → List Effect → Type 0 where
    stop : Run t t [] []
    start :
        {s s' : Requests lws} {ps : List ℕ} {effects es all : List Effect}
        (connected : Option (ℕ × lws.Wsi)) (body : Text) (p : ℕ)
        → IsNew connected s
        → request connected body p s ≡ (effects, s')
        → Run t s' ps es
        → all ≡ effects ++ es
        → Run t s (p ∷ ps) all
    call :
        {s s' : Requests lws} {ps : List ℕ} {effects es all : List Effect} (address : ℕ)
        (reason : Reason) (failed : Bool) (code : ℤ)
        → callback_http address reason failed s ≡ ok (code, effects, s')
        → Run t s' ps es
        → all ≡ effects ++ es
        → Run t s ps all

  -- A request that is made waits, or is refused.
  start-conserves :
      (connected : Option (ℕ × lws.Wsi)) (body : Text) (p : ℕ) (s s' : Requests lws)
      (effects : List Effect)
      → IsNew connected s
      → request connected body p s ≡ (effects, s')
      → IsPromised s
      → IsPromised s'
        × ((q : ℕ) → (if q == p then 1 else 0) + pending q s ≡ answered q effects + pending q s')
  unfolding request start_request answered
  start-conserves none body p s s' effects new h v =
      let now : s ≡ s' = ground arith in (rw (← now) v, λ q. ground arith)
  start-conserves (some (a, w)) body p s s' effects new h v =
      let now : put a (make_handler w body (some p) (some p)) s ≡ s' =
        unfold emplace in ground arith in
      let quiet : [] ≡ effects = ground arith in
      rw (← now, ← quiet)
        (
          record {
            both = put-Both a _ s (unfold make_handler in refl) v.both;
            unique = put-Unique a _ s v.unique;
          },
          λ q.
              unfold make_handler in
              omega (arith, pending-emplace q a (make_handler w body (some p) (some p)) s new),
        )

  Run-conserves :
      {t s : Requests lws} {ps : List ℕ} {es : List Effect} (p : ℕ)
      → Run t s ps es
      → IsPromised s
      → IsPromised t × (count p ps + pending p s ≡ answered p es + pending p t)
  unfolding count answered
  Run-conserves p stop v = (v, refl)
  Run-conserves {t} {s} p
        (start {s' = s'} {ps = ps} {effects = e} {es = es} connected body q new made rest split) v =
      let (v', kept) = start-conserves connected body q s s' e new made v in
      let (w, later) = Run-conserves p rest v' in
      (w, rw split (omega (arith, kept p, later, answered-append p e es)))
  Run-conserves {t} {s} p
        (call {s' = s'} {ps = ps} {effects = e} {es = es} a reason failed code called rest split)
        v =
      let settles = callback_http-Settles a reason failed s s' code e called v in
      let (w, later) = Run-conserves p rest settles.promised in
      (w, rw split (omega (arith, settles.settled p, later, answered-append p e es)))

  abort_pending_requests-answers :
      (p : ℕ) (s : Requests lws)
      → IsPromised s
      → answered p (abort_pending_requests s) ≡ pending p s
  unfolding abort_pending_requests pending
  abort_pending_requests-answers p [] v = unfold answered in refl
  abort_pending_requests-answers p ((a, h) ∷ s) v =
      rw
        (
          answered-append p (abort _ h) (abort_pending_requests s),
          abort-answers p _ h v.both.0,
          abort_pending_requests-answers p s (record { both = v.both.1; unique = v.unique.1 }),
        )
        refl

  -- Over the life of a client, from its start over any requests and any reports of libwebsockets to
  -- its destruction, each promise is satisfied as often as a request was made with it: once, where
  -- each request has a promise of its own. libwebsockets gives each request a connection that no
  -- waiting request has, and no report concerns a request that is not in the table where the client
  -- reads it.
  pub promises_answered :
      (p : ℕ) (ps : List ℕ) (es : List Effect) (t : Requests lws)
      → Run t [] ps es
      → answered p (es ++ abort_pending_requests t) ≡ count p ps
  promises_answered p ps es t run =
      let (v, kept) = Run-conserves p run (record { both = tt; unique = tt }) in
      omega (
        arith,
        answered-append p es (abort_pending_requests t),
        abort_pending_requests-answers p t v,
        kept,
        empty,
      )
    where
      empty : pending {lws = lws} p [] ≡ 0
      empty = unfold pending in refl
