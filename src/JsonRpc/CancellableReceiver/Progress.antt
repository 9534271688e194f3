-- ===== src/JsonRpc/CancellableReceiver/Progress.antt =====
-- The notifications of an action's progress do not touch its response or the table.
use rockets.Prelude.{
  ℕ, ◌≡◌, refl, ◌∙◌, ap, Text, bytes, text_eq, text_eq_sound, text_eq_refl, Bool-cases, inl, inr,
  true, false, Option, some, List, arith,
}
use rockets.Prelude.Assoc.{Eq, find, put, find-put, text_key}
use rockets.Prelude.Result.{Result, ok, throw, >>=-eq-ok, ok-injective}
use rockets.Json.{JsonLib}
use rockets.JsonRpc.Message.{Request, begins_with}
use rockets.JsonRpc.Cancellable.{
  Requests, Outputs, start, respond_all, set_cancel, set_cancel_of, process_cancellable,
  verify_cancellable_method_name,
}
use rockets.JsonRpc.CancellableReceiver.{
  Sent, Acted, CancellableCallback, CancellableMethods, register_method, after_action, process,
}
use rockets.JsonRpc.CancellableReceiver.Events.{
  responses, notifications, Interleaves, events-Interleave,
}

cancel_reserved : begins_with (bytes "cancel") (bytes "cancel") ≡ true
unfolding begins_with text_eq
cancel_reserved = refl

not_reserved :
    (method : Text) (u : Unit {0})
    → verify_cancellable_method_name method ≡ ok u
    → text_eq method (bytes "cancel") ≡ false
unfolding verify_cancellable_method_name
not_reserved method u h = elim (Bool-cases (text_eq method (bytes "cancel"))) [
  | inl same ↦ absurd (ground (arith, cancel_reserved, text_eq_sound method (bytes "cancel") same))
  | inr other ↦ other
]

-- A method that is bound is not "cancel".
bound :
    {J K A : Type 0} (method : Text) (action : CancellableCallback J K A)
    (methods methods' : CancellableMethods J K A)
    → register_method method action methods ≡ ok methods'
    → (text_eq method (bytes "cancel") ≡ false) × (find method methods'.cancellable ≡ some action)
unfolding register_method
bound method action methods methods' h =
    let (u, verified, put_there) =
      >>=-eq-ok (verify_cancellable_method_name method)
        (λ _. ok (record methods { cancellable = put method action methods.cancellable })) h in
    let same : put method action methods.cancellable ≡ methods'.cancellable =
      ap (λ m. m.cancellable) (ok-injective put_there) in
    (
      not_reserved method u verified,
      rw (← same)
          (ground (arith, find-put method method action methods.cancellable, text_eq_refl method)),
    )

module _ (lib : JsonLib) ⦃e : Eq lib.Json⦄ {R K : Type 0} where
  open lib use {Json}

  cancel_stored :
      (id : Json) (cancel : Option K) (r : Result (Outputs Json R K) × Requests Json R K)
      (outs : Outputs Json R K) (left : Requests Json R K)
      → set_cancel_of lib id cancel r ≡ (ok outs, left)
      → (t : Requests Json R K) × (r ≡ (ok outs, t)) × (set_cancel lib id cancel t ≡ left)
  unfolding set_cancel_of
  cancel_stored id cancel (ok o, t) outs left h =
      (t, ap (λ r. (r, t)) (ap (λ r. r.0) h), ap (λ r. r.1) h)
  cancel_stored id cancel (throw x, t) outs left h = absurd (ground arith)

  after_action-Interleaves :
      (client : ℕ) (id : Json) (respond : R) (acted : Acted Json K) (s left : Requests Json R K)
      (outs : Outputs Json R K) (messages : List Text)
      → process_cancellable lib id respond (responses acted.events) acted.cancel s ≡ (ok outs, left)
      → notifications lib id acted.events ≡ ok messages
      → (sent : List (Sent Json R K)) × (after_action lib client id respond acted s
          ≡ (ok sent, left))
        × Interleaves lib client outs messages sent
  unfolding process_cancellable after_action set_cancel_of
  after_action-Interleaves client id respond acted s left outs messages h n =
      let (t, responded, kept) =
        cancel_stored id acted.cancel
          (respond_all lib id respond (responses acted.events) (start lib id respond s)) outs left
          h in
      let (sent, done, same) =
        events-Interleave lib client id respond acted.events (start lib id respond s) t outs
          messages responded n in
      (sent, ap (set_cancel_of lib id acted.cancel) done ∙ ap (λ t. (ok sent, t)) kept, same)

  -- A request for a method that was bound, and whose action calls `acted`: if its responses alone,
  -- without the updates of its progress, make the calls `outs` and leave the table `left`, and the
  -- notifications of the updates can be made, then `process` leaves that table, makes just those
  -- calls in their order, and sends just those notifications, in their order, all to the client of
  -- the request.
  pub process-Interleaves :
      {A : Type 0} (method : Text) (action : CancellableCallback Json K A)
      (methods methods' : CancellableMethods Json K A) (id : Json) (request : Request) (respond : R)
      (a a' : A) (acted : Acted Json K) (s left : Requests Json R K) (outs : Outputs Json R K)
      (messages : List Text)
      → register_method method action methods ≡ ok methods'
      → action request a ≡ (acted, a')
      → process_cancellable lib id respond (responses acted.events) acted.cancel s ≡ (ok outs, left)
      → notifications lib id acted.events ≡ ok messages
      → (sent : List (Sent Json R K)) × (process lib methods' id method request respond (a, s)
          ≡ (ok sent, (a', left)))
        × Interleaves lib request.client_id outs messages sent
  unfolding process
  process-Interleaves method action methods methods' id request respond a a' acted s left outs
        messages r acts h n =
      let (not_cancel, there) = bound method action methods methods' r in
      let (sent, done, same) =
        after_action-Interleaves request.client_id id respond acted s left outs messages h n in
      (sent, rw (not_cancel, there, acts, done) refl, same)
