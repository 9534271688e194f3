-- ===== src/JsonRpc/Cancellable/Once.antt =====
-- How often a cancellable request is answered.
use rockets.Prelude.{
  ◌≡◌, refl, ap, Bool, true, false, Option, none, some, List, [], ◌∷◌, is_some, arith,
  if◌then◌else◌, Text, bytes,
}
use rockets.Prelude.Assoc.{Eq, find, erase, find-put, find-erase}
use rockets.Prelude.Result.{ok}
use rockets.Json.{JsonLib}
use rockets.Json.Access.{is_null, member}
use rockets.JsonRpc.Message.{Response}
use rockets.JsonRpc.Cancellable.{
  Requests, replies, cancels, start, reply_of, respond_to_request, respond_all, set_cancel,
  set_cancel_of, process_cancellable, process_cancel, cancel_request, call_cancel, abort,
  entry_callback, application, at_once,
}

module _ (lib : JsonLib) ⦃e : Eq lib.Json⦄ {R K : Type 0} where
  open lib use {Json, view}

  dropped :
      (locked : Bool) (id : Json) (respond : R) (rep : Response) (requests : Requests Json R K)
      → find id requests ≡ none
      → respond_to_request lib locked id respond rep requests ≡ (ok [], requests)
  unfolding respond_to_request
  dropped locked id respond rep requests gone = ground arith

  all_dropped :
      (id : Json) (respond : R) (reps : List Response) (requests : Requests Json R K)
      → find id requests ≡ none
      → respond_all lib id respond reps requests ≡ (ok [], requests)
  unfolding respond_all
  all_dropped id respond [] requests gone = refl
  all_dropped id respond (rep ∷ reps) requests gone =
      rw (dropped false id respond rep requests gone, all_dropped id respond reps requests gone)
        refl

  erased : (id : Json) (requests : Requests Json R K) → find id (erase id requests) ≡ none
  erased id requests = ground (arith, find-erase id id requests, e.beq_self id)

  find_started :
      (id : Json) (respond : R) (requests : Requests Json R K)
      → find id (start lib id respond requests) ≡ some (at_once, some respond)
  unfolding start
  find_started id respond requests =
      ground (arith, find-put id id (at_once, some respond) requests, e.beq_self id)

  answered :
      (id reply : Json) (respond : R) (rep : Response) (requests : Requests Json R K)
      → is_some (find id requests) ≡ true
      → reply_of lib id rep ≡ ok reply
      → respond_to_request lib false id respond rep requests
        ≡ (ok (replies respond reply ∷ []), erase id requests)
  unfolding respond_to_request
  answered id reply respond rep requests there made = rw (there, made) refl

  -- Of the responses that an action gives to a request in work, the first, if its reply can be
  -- made, is the only one that is sent, to the callback of that request; the entry of its id is
  -- gone, and all others stay.
  pub respond_all-once :
      (id reply : Json) (respond : R) (rep : Response) (reps : List Response)
      (requests : Requests Json R K)
      → is_some (find id requests) ≡ true
      → reply_of lib id rep ≡ ok reply
      → (respond_all lib id respond (rep ∷ reps) requests
          ≡ (ok (replies respond reply ∷ []), erase id requests))
        × ((k : Json) → find k (erase id requests) ≡ (if e.beq id k then none else find k requests))
  unfolding respond_all
  respond_all-once id reply respond rep reps requests there made = (
    rw
        (
          answered id reply respond rep requests there made,
          all_dropped id respond reps (erase id requests) (erased id requests),
        )
        refl,
    λ k. find-erase id k requests,
  )

  -- Two requests in work with one id, as two clients may choose it, the second started after the
  -- first: once the second was answered, the response to the first is dropped. The reply to the
  -- second can be made.
  pub same_id-dropped :
      (id reply : Json) (first second : R) (rep rep' : Response) (requests : Requests Json R K)
      → reply_of lib id rep' ≡ ok reply
      → let both = start lib id second (start lib id first requests) in
        let (sent, left) = respond_to_request lib false id second rep' both in
        (sent ≡ ok (replies second reply ∷ []))
        × (respond_to_request lib false id first rep left ≡ (ok [], left))
  same_id-dropped id reply first second rep rep' requests made =
      rw (answered id reply second rep' both there made)
        (refl, dropped false id first rep (erase id both) (erased id both))
    where
      both : Requests Json R K
      both = start lib id second (start lib id first requests)

      there : is_some (find id both) ≡ true
      there = ground (arith, find_started id second (start lib id first requests))

  -- A request whose action responds before it returns a cancel function: its first response is
  -- sent, if the reply can be made, and then its id is in the table again, with that function and
  -- no callback, as if the request were in work.
  pub process_cancellable-stale :
      (id reply : Json) (respond : R) (rep : Response) (reps : List Response) (cancel : K)
      (requests : Requests Json R K)
      → reply_of lib id rep ≡ ok reply
      → let (sent, left) = process_cancellable lib id respond (rep ∷ reps) (some cancel) requests in
        (sent ≡ ok (replies respond reply ∷ [])) × (find id left ≡ some (application cancel, none))
  unfolding process_cancellable set_cancel_of set_cancel
  process_cancellable-stale id reply respond rep reps cancel requests made =
      rw
        (
          (respond_all-once id reply respond rep reps begun there made).0,
          erased id begun,
          find-put id id (application cancel, none) (erase id begun),
          e.beq_self id,
        )
        (refl, refl)
    where
      begun : Requests Json R K
      begun = start lib id respond requests

      there : is_some (find id begun) ≡ true
      there = ground (arith, find_started id respond requests)

  pub cancelled :
      (notification id params : Json) (message : Text) (cancel : K) (callback : Option R)
      (requests : Requests Json R K)
      → lib.parse message ≡ some params
      → member (bytes "id") (view params) ≡ some id
      → is_null (view notification) ≡ true
      → find id requests ≡ some (application cancel, callback)
      → process_cancel lib notification message requests
        ≡ (ok (cancels cancel callback id ∷ []), erase id requests)
  unfolding process_cancel cancel_request call_cancel
  cancelled notification id params message cancel callback requests parsed named quiet waits =
      rw (parsed, process_cancel, named, process_cancel, quiet, waits) refl

  -- A cancel notification with the id of a request in work, whose action returned a cancel
  -- function: that function is called with the callback of the request, the request is out of
  -- work, and a response of its action after that is dropped. All other requests stay in work.
  pub process_cancel-drops :
      (notification id params : Json) (message : Text) (cancel : K) (callback : Option R)
      (respond : R) (rep : Response) (requests : Requests Json R K)
      → lib.parse message ≡ some params
      → member (bytes "id") (view params) ≡ some id
      → is_null (view notification) ≡ true
      → find id requests ≡ some (application cancel, callback)
      → let (outputs, left) = process_cancel lib notification message requests in
        (outputs ≡ ok (cancels cancel callback id ∷ []))
        × (respond_to_request lib false id respond rep left ≡ (ok [], left))
        × ((k : Json) → find k left ≡ (if e.beq id k then none else find k requests))
  process_cancel-drops notification id params message cancel callback respond rep requests parsed
        named quiet waits =
      rw
        (cancelled notification id params message cancel callback requests parsed named quiet waits)
        (
          refl,
          dropped false id respond rep (erase id requests) (erased id requests),
          λ k. find-erase id k requests,
        )

  stored :
      (id : Json) (cancel : K) (requests : Requests Json R K)
      → is_some (find id (set_cancel lib id (some cancel) requests)) ≡ true
  unfolding set_cancel
  stored id cancel requests = ground (
    arith,
    find-put id id (application cancel, entry_callback lib (find id requests)) requests,
    e.beq_self id,
  )

  -- A request that is cancelled while its action runs, before the action has returned its cancel
  -- function: the reply that it was aborted is sent, the cancel function that is then stored makes
  -- a new entry, and the response of the application is sent as a second reply.
  pub cancel_request-twice :
      (id aborted reply : Json) (respond : R) (cancel : K) (rep : Response)
      (requests : Requests Json R K)
      → abort lib {K = K} respond id ≡ ok (replies respond aborted ∷ [])
      → reply_of lib id rep ≡ ok reply
      → let started = start lib id respond requests in
        let (first, left) = cancel_request lib id (find id started) started in
        let (second, last) =
          respond_to_request lib false id respond rep (set_cancel lib id (some cancel) left) in
        (first ≡ ok (replies respond aborted ∷ [])) × (second ≡ ok (replies respond reply ∷ []))
  unfolding cancel_request call_cancel
  cancel_request-twice id aborted reply respond cancel rep requests told made =
      rw (find_started id respond requests, told)
        (
          refl,
          ap (λ r. r.0)
              (answered id reply respond rep
                (set_cancel lib id (some cancel) (erase id (start lib id respond requests)))
                (stored id cancel (erase id (start lib id respond requests))) made),
        )
