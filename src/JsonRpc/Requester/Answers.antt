-- ===== src/JsonRpc/Requester/Answers.antt =====
-- What a valid response does to the table of pending requests.
use rockets.Prelude.{
  ℕ, ◌%◌, ◌≡◌, ◌≢◌, refl, sym, ◌∙◌, ap, ◌⊎◌, inl, inr, Text, bytes, Bool, true, false, Option, none,
  some, List, [], ◌∷◌, arith, ◌==◌, if◌then◌else◌, Option-cases,
}
use rockets.Prelude.Assoc.{find, find-erase, nat_eq}
use rockets.Prelude.Result.{ok, >>=-eq-ok}
use rockets.Json.{JsonLib, View, unsigned}
use rockets.Json.Access.{member}
use rockets.JsonRpc.Message.{Response}
use rockets.JsonRpc.Requester.{
  Requester, Effect, calls, size_mod, response_of, respond_to, with_id, process_valid_response,
  is_valid_response, at_key,
}

-- The message is a valid response with this id, from which this response is made.
abbrev pub Answers : (lib : JsonLib) → Text → ℕ → Response → Type 0
Answers lib message id rep =
    (response : lib.Json) × (j : lib.Json) × (n : ℕ) × (lib.parse message ≡ some response)
    × (is_valid_response lib response ≡ ok true)
    × (member (bytes "id") (lib.view response) ≡ some j)
    × (lib.view j ≡ unsigned n)
    × (n % size_mod ≡ id)
    × (response_of lib response ≡ ok rep)

pub some_injective : {A : Type 0} {x y : A} → some x ≡ some y → x ≡ y
some_injective h = ground arith

module _ (lib : JsonLib) where
  at_key-member :
      (response j : lib.Json)
      → at_key lib (bytes "id") response ≡ ok j
      → member (bytes "id") (lib.view response) ≡ some j
  at_key-member response j h = elim (Option-cases (member (bytes "id") (lib.view response))) [
    | inl gone ↦ absurd (ground arith)
    | inr (x, there) ↦ ground arith
  ]

  -- The id that a message answers is that of the response which it parses to.
  answered_id :
      (message : Text) (id : ℕ) (rep : Response) (response j : lib.Json)
      → Answers lib message id rep
      → lib.parse message ≡ some response
      → member (bytes "id") (lib.view response) ≡ some j
      → (n : ℕ) × (lib.view j ≡ unsigned n) × (n % size_mod ≡ id)
  answered_id message id rep response j (response', j', n, p, _, m, v, e, _) parsed named =
      let same_response : response' ≡ response = ground arith in
      let same_j : j' ≡ j =
        some_injective (sym m ∙ ap (λ x. member (bytes "id") (lib.view x)) same_response ∙ named) in
      (n, ap lib.view (sym same_j) ∙ v, e)

module _ (lib : JsonLib) {C : Type 0} where
  abbrev pub Untouched : Bool → List (Effect C) → Requester C → Requester C → Type 0
  Untouched b effects r r' = (b ≡ false) × (effects ≡ []) × (r' ≡ r)

  -- The callback that waits for the id is called with the response, and the id no longer waits.
  abbrev pub Called : ℕ → Response → Bool → List (Effect C) → Requester C → Requester C → Type 0
  Called id rep b effects r r' =
      (callback : C) × (b ≡ true)
      × (find id r.pending_requests ≡ some callback)
      × (effects ≡ calls callback rep ∷ [])
      × ((k : ℕ)
          → find k r'.pending_requests ≡ (if id == k then none else find k r.pending_requests))
      × (r'.last_id ≡ r.last_id)

  abbrev pub Once : Text → Bool → List (Effect C) → Requester C → Requester C → Type 0
  Once message b effects r r' =
      ((id : ℕ) × (rep : Response) × Answers lib message id rep × Called id rep b effects r r')
      ⊎ (Untouched b effects r r'
          × ((id : ℕ) (rep : Response)
              → Answers lib message id rep
              → find id r.pending_requests ≡ none))

  -- What `respond_to` does for an id.
  abbrev Replied : lib.Json → ℕ → Bool → List (Effect C) → Requester C → Requester C → Type 0
  Replied response id b effects r r' =
      ((rep : Response) × (response_of lib response ≡ ok rep) × Called id rep b effects r r')
      ⊎ (Untouched b effects r r' × (find id r.pending_requests ≡ none))

  respond_to-Replied :
      (response : lib.Json) (id : ℕ) (waiting : Option C) (r r' : Requester C) (b : Bool)
      (effects : List (Effect C))
      → find id r.pending_requests ≡ waiting
      → respond_to lib response id waiting r ≡ ok (b, effects, r')
      → Replied response id b effects r r'
  unfolding respond_to
  respond_to-Replied response id none r r' b effects w h =
      inr ((ground arith, ground arith, ground arith), w)
  respond_to-Replied response id (some callback) r r' b effects w h =
      let (rep, made, k) = >>=-eq-ok (response_of lib response) _ h in
      inl (
        rep,
        made,
        (
          callback,
          ground arith,
          w,
          ground arith,
          (λ n. ground (arith, find-erase id n r.pending_requests)),
          ground arith,
        ),
      )

  with_id-Replied :
      (response : lib.Json) (v : View lib.Json) (r r' : Requester C) (b : Bool)
      (effects : List (Effect C))
      → with_id lib response v r ≡ ok (b, effects, r')
      → ((n : ℕ) × (v ≡ unsigned n) × Replied response (n % size_mod) b effects r r')
        ⊎ (Untouched b effects r r' × ((n : ℕ) → v ≢ unsigned n))
  unfolding with_id
  with_id-Replied response (unsigned n) r r' b effects h = inl (
    n,
    refl,
    respond_to-Replied response (n % size_mod) (find (n % size_mod) r.pending_requests) r r' b
        effects refl h,
  )
  with_id-Replied response _ r r' b effects h =
      inr ((ground arith, ground arith, ground arith), λ n e. ground arith)

  -- A valid response.
  pub valid-Once :
      (message : Text) (response : lib.Json) (r r' : Requester C) (b : Bool)
      (effects : List (Effect C))
      → lib.parse message ≡ some response
      → is_valid_response lib response ≡ ok true
      → process_valid_response lib response true r ≡ ok (b, effects, r')
      → Once message b effects r r'
  unfolding process_valid_response
  valid-Once message response r r' b effects parsed valid h =
      let (j, there, k) =
        >>=-eq-ok (at_key lib (bytes "id") response) (λ j. with_id lib response (lib.view j) r) h in
      let named = at_key-member lib response j there in
      elim (with_id-Replied response (lib.view j) r r' b effects k) [
        | inl (n, seen, inl (rep, made, called)) ↦
            inl
              (n % size_mod, rep, (response, j, n, parsed, valid, named, seen, refl, made), called)
        | inl (n, seen, inr (same, gone)) ↦ inr (
          same,
          λ id rep answers.
              let (n', seen', same_id) =
                answered_id lib message id rep response j answers parsed named in
              ground arith,
        )
        | inr (same, other) ↦ inr (
          same,
          λ id rep answers.
              let (n, seen, same_id) =
                answered_id lib message id rep response j answers parsed named in
              absurd (other n seen),
        )
      ]
