-- ===== src/JsonRpc/Requester/Pending.antt =====
-- The table of pending requests: which callback waits for which id, and how often it is called.
use rockets.Prelude.{
  ℕ, ◌+◌, ◌-◌, ◌%◌, ◌<◌, ◌≡◌, refl, sym, ◌∙◌, inl, inr, Text, bytes, is_empty, Bool, true, false,
  none, some, List, [], ◌∷◌, is_some, All, ◌==◌, arith, if◌then◌else◌, Option-cases, Bool-cases, ap,
}
use rockets.Prelude.Assoc.{find, put, emplace, erase, find-emplace, find-emplace_self, nat_eq}
use rockets.Prelude.Result.{ok, throw, type_error, >>=-eq-ok}
use rockets.Json.{JsonLib, JsonLaws}
use rockets.Json.Access.{number, member}
use rockets.JsonRpc.Message.{invalid_params}
use rockets.JsonRpc.Requester.Answers.{some_injective, Once, valid-Once}
use rockets.JsonRpc.Requester.Made.{request_json-id}
use rockets.JsonRpc.Requester.{
  Requester, Effect, calls, sends, size_mod, request, send_request, request_json, store,
  returned_id, process_valid_response, process_response, is_valid_response,
}

-- Every id that is pending was given out before.
pub record IsValid {C : Type 0} (r : Requester C) : Type 0 where
  pub given : All (λ e. e.0 < r.last_id) r.pending_requests

pub find_above : {C : Type 0} (n : ℕ) (m : List (ℕ × C)) → All (λ e. e.0 < n) m → find n m ≡ none
unfolding find
find_above n [] h = refl
find_above n ((j, c) ∷ m) h = ground (arith, find_above n m h.1)

put-given :
    {C : Type 0} (n : ℕ) (c : C) (m : List (ℕ × C))
    → All (λ e. e.0 < n) m
    → All (λ e. e.0 < n + 1) (put n c m)
unfolding put
put-given n c [] h = (omega arith, tt)
put-given n c ((j, d) ∷ m) h = ground (arith, put-given n c m h.1)

erase-given :
    {C : Type 0} (n k : ℕ) (m : List (ℕ × C))
    → All (λ e. e.0 < n) m
    → All (λ e. e.0 < n) (erase k m)
unfolding erase
erase-given n k [] h = tt
erase-given n k ((j, d) ∷ m) h = ground (arith, erase-given n k m h.1)

pub returned-store :
    {C : Type 0} (callback : C) (r : Requester C)
    → r.last_id + 1 < size_mod
    → returned_id (store callback r) ≡ r.last_id
unfolding store
returned-store callback r small = omega arith

pub find-store :
    {C : Type 0} (callback : C) (r : Requester C) (k : ℕ)
    → IsValid r
    → find k (store callback r).pending_requests
      ≡ (if r.last_id == k then some callback else find k r.pending_requests)
unfolding store
find-store callback r k v =
    find-emplace r.last_id k callback r.pending_requests
      (find_above r.last_id r.pending_requests v.given)

pub store-IsValid :
    {C : Type 0} (callback : C) (r : Requester C)
    → IsValid r
    → r.last_id + 1 < size_mod
    → IsValid (store callback r)
unfolding store emplace
store-IsValid callback r v small = record {
  given =
      rw (find_above r.last_id r.pending_requests v.given, wrap)
        (put-given r.last_id callback r.pending_requests v.given);
}
  where
    wrap : (r.last_id + 1) % size_mod ≡ r.last_id + 1
    wrap = omega arith

module _ (lib : JsonLib) {C : Type 0} where
  pub request-sent :
      (method params : Text) (callback : C) (r : Requester C) (j : lib.Json)
      → request_json lib method params r.last_id ≡ some j
      → lib.encodes j ≡ true
      → request lib method params callback r
        ≡ (sends (lib.dump j) ∷ [], ok (returned_id (store callback r)), store callback r)
  unfolding request send_request
  request-sent method params callback r j made encoded = rw (made, request, encoded) refl

  -- While ids have not wrapped, a request whose parameters are empty or JSON is made with an id that
  -- was not pending, and has its callback wait under that id; the callbacks of all other ids stay, and
  -- the ids that wait are still below the next. If its strings are UTF-8, one text is sent, that of
  -- the request, and the id is returned; else nothing is sent and a type_error is thrown, and the
  -- callback waits all the same.
  pub request-fresh :
      (laws : JsonLaws lib) (method params : Text) (callback : C) (r : Requester C) (j : lib.Json)
      → IsValid r
      → r.last_id + 1 < size_mod
      → request_json lib method params r.last_id ≡ some j
      → let (effects, id, r') = request lib method params callback r in
        (member (bytes "id") (lib.view j) ≡ some (number lib r.last_id))
        × (effects ≡ (if lib.encodes j then sends (lib.dump j) ∷ [] else []))
        × (id ≡ (if lib.encodes j then ok r.last_id else throw type_error))
        × (find r.last_id r.pending_requests ≡ none)
        × ((k : ℕ)
            → find k r'.pending_requests
              ≡ (if r.last_id == k then some callback else find k r.pending_requests))
        × IsValid r'
  unfolding request send_request
  request-fresh laws method params callback r j v small made = elim (Bool-cases (lib.encodes j)) [
    | inl good ↦
        rw (made, request, good, returned-store callback r small)
          (named, refl, refl, kept.0, kept.1, kept.2)
    | inr bad ↦ rw (made, request, bad) (named, refl, refl, kept.0, kept.1, kept.2)
  ]
    where
      named : member (bytes "id") (lib.view j) ≡ some (number lib r.last_id)
      named = request_json-id lib laws method params r.last_id j made

      kept :
          (find r.last_id r.pending_requests ≡ none)
          × ((k : ℕ)
              → find k (store callback r).pending_requests
                ≡ (if r.last_id == k then some callback else find k r.pending_requests))
          × IsValid (store callback r)
      kept = (
        find_above r.last_id r.pending_requests v.given,
        (λ k. find-store callback r k v),
        store-IsValid callback r v small,
      )

  -- A request whose parameters are no JSON calls its callback with "Invalid params" and changes
  -- nothing; the id that it returns is that of the request before it, which may still be pending.
  pub request-bad_params :
      (method params : Text) (callback : C) (r : Requester C)
      → is_empty params ≡ false
      → lib.parse params ≡ none
      → request lib method params callback r
        ≡ (calls callback invalid_params ∷ [], ok ((r.last_id + size_mod - 1) % size_mod), r)
  unfolding request request_json
  request-bad_params method params callback r given bad = ground arith

  -- After a request that went out, while ids have not wrapped, a request whose parameters are no JSON
  -- and not empty returns the very id of the first, whose callback still waits.
  pub bad_params_reuse_id :
      (method method' params params' : Text) (first second : C) (r : Requester C) (j : lib.Json)
      → r.last_id + 1 < size_mod
      → request_json lib method params r.last_id ≡ some j
      → lib.encodes j ≡ true
      → is_empty params' ≡ false
      → lib.parse params' ≡ none
      → let (_, id, r') = request lib method params first r in
        let (_, id', r'') = request lib method' params' second r' in
        (id ≡ ok r.last_id) × (id' ≡ id) × (is_some (find r.last_id r''.pending_requests) ≡ true)
  bad_params_reuse_id method method' params params' first second r j small made encoded given bad =
      rw
        (
          request-sent method params first r j made encoded,
          returned-store first r small,
          request-bad_params method' params' second (store first r) given bad,
        )
        (refl, ap ok (returned-store first r small), waiting)
    where
      waiting : is_some (find r.last_id (store first r).pending_requests) ≡ true
      waiting = unfold store in find-emplace_self r.last_id first r.pending_requests

  -- A call of processResponse that returns true got a valid response, and called the callback that
  -- waited for the id of that response with what the response says, once and alone; that id no longer
  -- waits, and the callbacks of other ids stay. One that returns false called no callback and changed
  -- nothing, and its message is no valid response to an id for which a callback waits. A call that
  -- throws is left out.
  pub process_response-Once :
      (message : Text) (r r' : Requester C) (b : Bool) (effects : List (Effect C))
      → process_response lib message r ≡ ok (b, effects, r')
      → Once lib message b effects r r'
  unfolding process_response process_valid_response
  process_response-Once message r r' b effects h = elim (Option-cases (lib.parse message)) [
    | inl bad ↦ inr (
      (ground arith, ground arith, ground arith),
      λ id rep (response, _, _, parsed, _, _, _, _, _). absurd (ground arith),
    )
    | inr (response, good) ↦
        let (valid, tested, k) =
          >>=-eq-ok (is_valid_response lib response)
            (λ valid. process_valid_response lib response valid r)
            (rw (good, process_response) at h) in
        elim (Bool-cases valid) [
          | inl yes_valid ↦
              valid-Once lib message response r r' b effects good (tested ∙ ap ok yes_valid)
                (rw yes_valid at k)
          | inr invalid ↦ inr (
            (ground arith, ground arith, ground arith),
            λ id rep (response', _, _, parsed, tested', _, _, _, _).
                let same : response' ≡ response = some_injective (sym parsed ∙ good) in
                let both : ok true ≡ ok valid =
                  sym tested' ∙ ap (is_valid_response lib) same ∙ tested in
                absurd (ground arith),
          )
        ]
  ]
