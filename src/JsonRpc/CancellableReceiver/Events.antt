-- ===== src/JsonRpc/CancellableReceiver/Events.antt =====
-- What the calls of an action send: its responses, and the notifications of its progress.
use rockets.Prelude.{ℕ, ◌≡◌, refl, ◌∙◌, ap, Text, false, List, [], ◌∷◌, ◌++◌, map}
use rockets.Prelude.Assoc.{Eq, text_key}
use rockets.Prelude.Result.{Result, ok, throw, >>=-eq-ok, ok-injective}
use rockets.Prelude.Result
use rockets.Prelude.Act.{Act, pure, lift, ◌>>=◌, continue, continue-eq-ok}
use rockets.Json.{JsonLib}
use rockets.JsonRpc.Message.{Response}
use rockets.JsonRpc.Cancellable.{Requests, Outputs, respond_to_request, respond_all}
use rockets.JsonRpc.CancellableReceiver.{
  Event, responds, progresses, Sent, calls, sends, progress_message, perform, perform_all,
}

module _ {S A B : Type 0} where
  bind-ok :
      (m : Act S A) (f : A → Act S B) (s : S) {a : A} {t : S}
      → m s ≡ (ok a, t)
      → (m >>= f) s ≡ f a t
  bind-ok m f s h = ap (λ r. continue r.0 f r.1) h

  bind-eq-ok :
      (m : Act S A) (f : A → Act S B) (s : S) {b : B} {s' : S}
      → (m >>= f) s ≡ (ok b, s')
      → (a : A) × (t : S) × (m s ≡ (ok a, t)) × (f a t ≡ (ok b, s'))
  bind-eq-ok m f s h =
      let (a, good, rest) = continue-eq-ok (m s).0 f h in
      (a, (m s).1, ap (λ r. (r, (m s).1)) good, rest)

abbrev pub responses : {J : Type 0} → List (Event J) → List Response
responses [] = []
responses (responds rep ∷ events) = rep ∷ responses events
responses (progresses operation amount ∷ events) = responses events

-- The notifications of the updates of an action.
abbrev pub notifications : (lib : JsonLib) → lib.Json → List (Event lib.Json) → Result (List Text)
notifications lib id [] = ok []
notifications lib id (responds rep ∷ events) = notifications lib id events
notifications lib id (progresses operation amount ∷ events) =
    Result.◌>>=◌ (progress_message lib id operation amount)
      λ message. Result.◌>>=◌ (notifications lib id events) λ messages. ok (message ∷ messages)

module _ {J R K : Type 0} where
  abbrev pub calls_of : List (Sent J R K) → Outputs J R K
  calls_of [] = []
  calls_of (calls output ∷ sent) = output ∷ calls_of sent
  calls_of (sends message client ∷ sent) = calls_of sent

  abbrev pub texts_of : List (Sent J R K) → List (Text × ℕ)
  texts_of [] = []
  texts_of (calls output ∷ sent) = texts_of sent
  texts_of (sends message client ∷ sent) = (message, client) ∷ texts_of sent

  calls_of-calls :
      (outs : Outputs J R K) (sent : List (Sent J R K))
      → calls_of (map calls outs ++ sent) ≡ outs ++ calls_of sent
  calls_of-calls [] sent = refl
  calls_of-calls (o ∷ outs) sent = ap (λ t. o ∷ t) (calls_of-calls outs sent)

  texts_of-calls :
      (outs : Outputs J R K) (sent : List (Sent J R K))
      → texts_of (map calls outs ++ sent) ≡ texts_of sent
  texts_of-calls [] sent = refl
  texts_of-calls (o ∷ outs) sent = texts_of-calls outs sent

module _ (lib : JsonLib) ⦃e : Eq lib.Json⦄ {R K : Type 0} where
  open lib use {Json}

  -- What was sent where the calls are `outs` and the texts `messages`, all to one client.
  abbrev pub Interleaves : ℕ → Outputs Json R K → List Text → List (Sent Json R K) → Type 0
  Interleaves client outs messages sent =
      (calls_of sent ≡ outs) × (texts_of sent ≡ map (λ message. (message, client)) messages)

  all_performed :
      (client : ℕ) (id : Json) (respond : R) (event : Event Json) (events : List (Event Json))
      (first rest : List (Sent Json R K)) (s mid last : Requests Json R K)
      → perform lib client id respond event s ≡ (ok first, mid)
      → perform_all lib client id respond events mid ≡ (ok rest, last)
      → perform_all lib client id respond (event ∷ events) s ≡ (ok (first ++ rest), last)
  unfolding perform_all
  all_performed client id respond event events first rest s mid last h g =
      bind-ok (perform lib client id respond event)
        (λ first. perform_all lib client id respond events >>= λ rest. pure (first ++ rest)) s h
      ∙ bind-ok (perform_all lib client id respond events) (λ rest. pure (first ++ rest)) mid g

  response-Interleaves :
      (client : ℕ) (id : Json) (respond : R) (rep : Response) (events : List (Event Json))
      (s mid last : Requests Json R K) (first others outs : Outputs Json R K) (messages : List Text)
      (sent : List (Sent Json R K))
      → respond_to_request lib false id respond rep s ≡ (ok first, mid)
      → perform_all lib client id respond events mid ≡ (ok sent, last)
      → Interleaves client others messages sent
      → first ++ others ≡ outs
      → (sent : List (Sent Json R K)) × (perform_all lib client id respond (responds rep ∷ events) s
          ≡ (ok sent, last))
        × Interleaves client outs messages sent
  unfolding perform
  response-Interleaves client id respond rep events s mid last first others outs messages sent one
        done (calls_same, texts_same) whole =
      let performed : perform lib client id respond (responds rep) s ≡ (ok (map calls first), mid) =
        bind-ok (respond_to_request lib false id respond rep) (λ outputs. pure (map calls outputs))
          s one in
      (
        map calls first ++ sent,
        all_performed client id respond (responds rep) events (map calls first) sent s mid last
            performed done,
        (
          calls_of-calls first sent ∙ ap (λ t. first ++ t) calls_same ∙ whole,
          texts_of-calls first sent ∙ texts_same,
        ),
      )

  pub events-Interleave :
      (client : ℕ) (id : Json) (respond : R) (events : List (Event Json)) (s s' : Requests Json R K)
      (outs : Outputs Json R K) (messages : List Text)
      → respond_all lib id respond (responses events) s ≡ (ok outs, s')
      → notifications lib id events ≡ ok messages
      → (sent : List (Sent Json R K)) × (perform_all lib client id respond events s ≡ (ok sent, s'))
        × Interleaves client outs messages sent
  unfolding respond_all perform_all perform
  events-Interleave client id respond [] s s' outs messages h n =
      let none_called : [] ≡ outs = ok-injective (ap (λ r. r.0) h) in
      let none_told : [] ≡ messages = ok-injective n in
      let same : s ≡ s' = ap (λ r. r.1) h in
      rw (← none_called, ← none_told, ← same) ([], refl, (refl, refl))
  events-Interleave client id respond (responds rep ∷ events) s s' outs messages h n =
      let (first, mid, one, rest) =
        bind-eq-ok (respond_to_request lib false id respond rep)
          (λ first.
            respond_all lib id respond (responses events) >>= λ others. pure (first ++ others))
          s h in
      let (others, last, two, end) =
        bind-eq-ok (respond_all lib id respond (responses events))
          (λ others. pure (first ++ others)) mid rest in
      let (sent, done, (calls_same, texts_same)) =
        events-Interleave client id respond events mid last others messages two n in
      let whole : first ++ others ≡ outs = ok-injective (ap (λ r. r.0) end) in
      let same : last ≡ s' = ap (λ r. r.1) end in
      response-Interleaves client id respond rep events s mid s' first others outs messages sent one
        (done ∙ ap (λ t. (ok sent, t)) same) (calls_same, texts_same) whole
  events-Interleave client id respond (progresses o amount ∷ events) s s' outs messages h n =
      let (message, made, rest) =
        >>=-eq-ok (progress_message lib id o amount)
          (λ message.
            Result.◌>>=◌ (notifications lib id events) λ messages. ok (message ∷ messages))
          n in
      let (later, all, end) =
        >>=-eq-ok (notifications lib id events) (λ messages. ok (message ∷ messages)) rest in
      let whole : message ∷ later ≡ messages = ok-injective end in
      let (sent, done, (calls_same, texts_same)) =
        events-Interleave client id respond events s s' outs later h all in
      let performed : perform lib client id respond (progresses o amount) s
          ≡ (ok (sends message client ∷ []), s) =
        bind-ok (lift (progress_message lib id o amount))
          (λ message. pure (sends message client ∷ [])) s (ap (λ r. (r, s)) made) in
      (
        sends message client ∷ sent,
        all_performed client id respond (progresses o amount) events (sends message client ∷ [])
            sent s s s' performed done,
        (calls_same, rw (← whole) (ap (λ t. (message, client) ∷ t) texts_same)),
      )
