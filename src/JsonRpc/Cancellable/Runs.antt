-- ===== src/JsonRpc/Cancellable/Runs.antt =====
-- How often a request in work is answered over any sequence of starts, responses and cancellations.
use rockets.Prelude.{
  ℕ, ◌+◌, ◌≤◌, ◌≡◌, Text, Bool, true, Option, List, [], ◌∷◌, ◌++◌, is_some, ◌==◌, arith,
  if◌then◌else◌,
}
use rockets.Prelude.Assoc.{Eq, find}
use rockets.Prelude.Result.{ok}
use rockets.Json.{JsonLib}
use rockets.JsonRpc.Message.{Response}
use rockets.JsonRpc.Cancellable.{
  Requests, Outputs, at_once, start, respond_to_request, set_cancel, process_cancel,
}
use rockets.JsonRpc.Cancellable.Table.{
  replied, replied-append, waits, IsTable, put-IsTable, waits-put,
}
use rockets.JsonRpc.Cancellable.Steps.{respond-Pays, cancel-Pays, set-Pays}

-- How often a request was started.
unfoldable pub count : ℕ → List ℕ → ℕ
count p [] = 0
count p (q ∷ qs) = (if q == p then 1 else 0) + count p qs

module _ (lib : JsonLib) ⦃e : Eq lib.Json⦄ {K : Type 0} (ids : ℕ → lib.Json) where
  open lib use {Json}

  -- From a table to the table `t`, with the requests that were started and all outputs. The request
  -- `p` has the id `ids p` and the callback `p`. The cancel function of an action is stored while its
  -- request is in work.
  pub data Run (t : Requests Json ℕ K)
      : Requests Json ℕ K → List ℕ → Outputs Json ℕ K → Type 0 where
    stop : Run t t [] []
    starts :
        {s : Requests Json ℕ K} {ps : List ℕ} {outs : Outputs Json ℕ K} (p : ℕ)
        → Run t (start lib (ids p) p s) ps outs
        → Run t s (p ∷ ps) outs
    responds :
        {s s' : Requests Json ℕ K} {ps : List ℕ} {now later all : Outputs Json ℕ K} (p : ℕ)
        (locked : Bool) (rep : Response)
        → respond_to_request lib locked (ids p) p rep s ≡ (ok now, s')
        → Run t s' ps later
        → all ≡ now ++ later
        → Run t s ps all
    cancelled :
        {s s' : Requests Json ℕ K} {ps : List ℕ} {now later all : Outputs Json ℕ K} (id : Json)
        (params : Text)
        → process_cancel lib id params s ≡ (ok now, s')
        → Run t s' ps later
        → all ≡ now ++ later
        → Run t s ps all
    sets :
        {s : Requests Json ℕ K} {ps : List ℕ} {outs : Outputs Json ℕ K} (p : ℕ) (cancel : Option K)
        → is_some (find (ids p) s) ≡ true
        → Run t (set_cancel lib (ids p) cancel s) ps outs
        → Run t s ps outs

  module _ (distinct : (p q : ℕ) → e.beq (ids p) (ids q) ≡ true → p ≡ q) where
    -- From any table whose entries are those of requests, each request is answered at most as often
    -- as it waits in the table and as it is started.
    pub answers :
        (p : ℕ) {t s : Requests Json ℕ K} {ps : List ℕ} {outs : Outputs Json ℕ K}
        → Run t s ps outs
        → IsTable lib ids s
        → replied p outs + waits lib ids p t ≤ count p ps + waits lib ids p s
    unfolding replied count start
    answers p stop v = omega arith
    answers p {s = s} (starts q rest) v =
        let after = answers p rest (put-IsTable lib ids q at_once s v) in
        ground (arith, waits-put lib ids distinct p q at_once s)
    answers p {s = s} (responds {s' = s'} {now = now} {later = later} q locked rep h rest all) v =
        let (v', pays) = respond-Pays lib ids distinct q locked rep s s' now v h in
        let after = answers p rest v' in rw all (ground (arith, pays p, replied-append p now later))
    answers p {s = s} (cancelled {s' = s'} {now = now} {later = later} id params h rest all) v =
        let (v', pays) = cancel-Pays lib ids distinct id params s s' now v h in
        let after = answers p rest v' in rw all (ground (arith, pays p, replied-append p now later))
    answers p {s = s} (sets q cancel there rest) v =
        let (v', pays) = set-Pays lib ids distinct q cancel s v there in
        let after = answers p rest v' in ground (arith, pays p)

    -- If the ids of the requests are distinct, then in any sequence of starts, responses and
    -- cancellations from an empty table, in which a cancel function is stored only while its
    -- request is in work, a request gets no more replies than it is started, where each cancel
    -- function of the application that is called counts as a reply.
    pub answers-once :
        (p : ℕ) {t : Requests Json ℕ K} {ps : List ℕ} {outs : Outputs Json ℕ K}
        → Run t [] ps outs
        → replied p outs ≤ count p ps
    unfolding find
    answers-once p run = ground (arith, answers p run (λ k entry f. absurd (ground arith)))
