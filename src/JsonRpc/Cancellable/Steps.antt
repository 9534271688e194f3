-- ===== src/JsonRpc/Cancellable/Steps.antt =====
-- What a response, a cancellation or a cancel function that is stored does to the table of the
-- requests in work, and to what they are owed.
use rockets.Prelude.{
  ℕ, ◌+◌, ◌≤◌, ◌≡◌, refl, ◌∙◌, ap, ◌⊎◌, inl, inr, Text, bytes, Bool, true, ◌||◌, not, Option, none,
  some, [], ◌∷◌, is_some, ◌==◌, arith, if◌then◌else◌, Bool-cases, Option-cases,
}
use rockets.Prelude.Assoc.{Eq, find, put, erase}
use rockets.Prelude.Result.{Result, Exception, ok, throw, >>=-eq-ok, ok-injective}
use rockets.Prelude.Result
use rockets.Json.{JsonLib}
use rockets.Json.Access.{is_null, member}
use rockets.JsonRpc.Message.{Response, make_error_response}
use rockets.JsonRpc.Cancellable.{
  Entry, Requests, Outputs, replies, cancels, at_once, application, reply_of, respond_to_request,
  set_cancel, process_cancel, cancel_request, call_cancel, abort, request_aborted,
}
use rockets.JsonRpc.Cancellable.Table.{
  replied, replied-one, replied-cancel, waits, IsTable, erase-IsTable, put-IsTable, waits-erase,
  waits-set, replied-none,
}

module _ (lib : JsonLib) ⦃e : Eq lib.Json⦄ {K : Type 0} (ids : ℕ → lib.Json) where
  open lib use {Json}

  module _ (distinct : (p q : ℕ) → e.beq (ids p) (ids q) ≡ true → p ≡ q) where
    -- What a step must do to the table.
    abbrev pub Pays : Requests Json ℕ K → Requests Json ℕ K → Outputs Json ℕ K → Type 0
    Pays s s' outs =
        IsTable lib ids s' × ((p : ℕ) → replied p outs + waits lib ids p s' ≤ waits lib ids p s)

    idle : (s : Requests Json ℕ K) → IsTable lib ids s → Pays s s []
    unfolding replied
    idle s v = (v, λ p. omega arith)

    abbrev pair :
        Outputs Json ℕ K → Requests Json ℕ K → Result (Outputs Json ℕ K) × Requests Json ℕ K
    pair outs s = (ok outs, s)

    nothing_sent :
        (s s' : Requests Json ℕ K) (outs : Outputs Json ℕ K)
        → IsTable lib ids s
        → pair [] s ≡ pair outs s'
        → Pays s s' outs
    nothing_sent s s' outs v h =
        let none_sent : [] ≡ outs = ok-injective (ap (λ o. o.0) h) in
        let same : s ≡ s' = ap (λ o. o.1) h in rw (← none_sent, ← same) (idle s v)

    -- An entry that is answered, or whose application is told, is gone.
    settled :
        (k : Json) (entry : Entry ℕ K) (q : ℕ) (s : Requests Json ℕ K) (outs : Outputs Json ℕ K)
        → IsTable lib ids s
        → find k s ≡ some entry
        → entry.1 ≡ some q
        → e.beq (ids q) k ≡ true
        → ((p : ℕ) → replied p outs ≡ (if q == p then 1 else 0))
        → Pays s (erase k s) outs
    settled k entry q s outs v there owner key told = (
      erase-IsTable lib ids k s v,
      λ p. rw (told p) (waits-erase lib ids distinct p q k entry s there owner key),
    )

    -- What the call of a cancel function gives.
    call_cancel-told :
        (id : Json) (entry : Entry ℕ K) (q : ℕ) (outs : Outputs Json ℕ K)
        → entry.1 ≡ some q
        → call_cancel lib id entry ≡ ok outs
        → (p : ℕ) → replied p outs ≡ (if q == p then 1 else 0)
    unfolding call_cancel abort
    call_cancel-told id (application cancel, some r) q outs owner h p =
        let same : cancels cancel (some r) id ∷ [] ≡ outs = ok-injective h in
        rw (← same) (ground (arith, replied-cancel r cancel id p))
    call_cancel-told id (at_once, some r) q outs owner h p =
        let (j, _, called) =
          >>=-eq-ok (make_error_response lib request_aborted id)
            (λ reply. ok (replies r reply ∷ [])) h in
        let same : replies r j ∷ [] ≡ outs = ok-injective called in
        rw (← same) (ground (arith, replied-one K r j p))
    call_cancel-told id (application cancel, none) q outs owner h p = absurd (ground arith)
    call_cancel-told id (at_once, none) q outs owner h p = absurd (ground arith)

    pub respond-Pays :
        (q : ℕ) (locked : Bool) (rep : Response) (s s' : Requests Json ℕ K)
        (outs : Outputs Json ℕ K)
        → IsTable lib ids s
        → respond_to_request lib locked (ids q) q rep s ≡ (ok outs, s')
        → Pays s s' outs
    unfolding respond_to_request
    respond-Pays q locked rep s s' outs v h =
        elim (Bool-cases (locked || not (is_some (find (ids q) s)))) [
          | inl skipped ↦ nothing_sent s s' outs v (ground arith)
          | inr free ↦ elim (Option-cases (find (ids q) s)) [
            | inl gone ↦ absurd (ground arith)
            | inr (entry, there) ↦
                let answered : Result.◌>>=◌ (reply_of lib (ids q) rep)
                      (λ reply. ok (replies q reply ∷ []))
                    ≡ ok outs =
                  ground arith in
                let (reply, _, called) =
                  >>=-eq-ok (reply_of lib (ids q) rep) (λ reply. ok (replies q reply ∷ []))
                    answered in
                let same : replies q reply ∷ [] ≡ outs = ok-injective called in
                let erased : erase (ids q) s ≡ s' = ground arith in
                let (r, owner, key) = v (ids q) entry there in
                rw (← same, ← erased)
                  (settled (ids q) entry q s (replies q reply ∷ []) v there
                    (owner ∙ ap some (distinct r q key)) (e.beq_self (ids q))
                    (replied-one K q reply))
          ]
        ]

    result_cases :
        (r : Result (Outputs Json ℕ K))
        → ((x : Exception) × (r ≡ throw x)) ⊎ ((outs : Outputs Json ℕ K) × (r ≡ ok outs))
    result_cases (throw x) = inl (x, refl)
    result_cases (ok outs) = inr (outs, refl)

    cancelled_entry :
        (k : Json) (entry : Entry ℕ K) (s s' : Requests Json ℕ K) (outs : Outputs Json ℕ K)
        → cancel_request lib k (some entry) s ≡ (ok outs, s')
        → (call_cancel lib k entry ≡ ok outs) × (erase k s ≡ s')
    unfolding cancel_request
    cancelled_entry k entry s s' outs h = elim (result_cases (call_cancel lib k entry)) [
      | inl (x, thrown) ↦ absurd (ground arith)
      | inr (os, called) ↦ (ground arith, ground arith)
    ]

    cancel_request-Pays :
        (k : Json) (s s' : Requests Json ℕ K) (outs : Outputs Json ℕ K)
        → IsTable lib ids s
        → cancel_request lib k (find k s) s ≡ (ok outs, s')
        → Pays s s' outs
    unfolding cancel_request
    cancel_request-Pays k s s' outs v h = elim (Option-cases (find k s)) [
      | inl gone ↦ nothing_sent s s' outs v (ground arith)
      | inr (entry, there) ↦
          let (q, owner, key) = v k entry there in
          let (called, erased) = cancelled_entry k entry s s' outs (ground arith) in
          rw (← erased) (
            settled k entry q s outs v there owner key
              (call_cancel-told k entry q outs owner called))
    ]

    pub cancel-Pays :
        (id : Json) (params : Text) (s s' : Requests Json ℕ K) (outs : Outputs Json ℕ K)
        → IsTable lib ids s
        → process_cancel lib id params s ≡ (ok outs, s')
        → Pays s s' outs
    unfolding process_cancel
    cancel-Pays id params s s' outs v h = elim (Option-cases (lib.parse params)) [
      | inl no_json ↦ nothing_sent s s' outs v (ground arith)
      | inr (j, parsed) ↦ elim (Option-cases (member (bytes "id") (lib.view j))) [
        | inl no_id ↦ nothing_sent s s' outs v (ground arith)
        | inr (k, here) ↦ elim (Bool-cases (is_null (lib.view id))) [
          | inl is_notification ↦ cancel_request-Pays k s s' outs v (ground arith)
          | inr is_request ↦ nothing_sent s s' outs v (ground arith)
        ]
      ]
    ]

    pub set-Pays :
        (q : ℕ) (cancel : Option K) (s : Requests Json ℕ K)
        → IsTable lib ids s
        → is_some (find (ids q) s) ≡ true
        → Pays s (set_cancel lib (ids q) cancel s) []
    unfolding set_cancel
    set-Pays q none s v there = idle s v
    set-Pays q (some cancel) s v there = elim (Option-cases (find (ids q) s)) [
      | inl gone ↦ absurd (ground arith)
      | inr (entry, found) ↦
          let (r, owner, key) = v (ids q) entry found in
          let owner_q : entry.1 ≡ some q = owner ∙ ap some (distinct r q key) in
          let stored : put (ids q) (application cancel, some q) s
              ≡ set_cancel lib (ids q) (some cancel) s =
            ground arith in
          rw (← stored) (
            put-IsTable lib ids q (application cancel) s v,
            λ p. ground (
              arith,
              replied-none Json K p,
              waits-set lib ids distinct p q (application cancel) entry s found owner_q,
            ),
          )
    ]
