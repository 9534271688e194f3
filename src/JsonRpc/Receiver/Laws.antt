-- ===== src/JsonRpc/Receiver/Laws.antt =====
-- A synchronous receiver answers every request.
use rockets.Prelude.{ℕ, ◌≡◌, refl, ap, ◌∙◌, inl, inr, Text, arith, Bool-cases}
use rockets.Prelude.Assoc.{text_key}
use rockets.Prelude.Result.{ok, >>=-eq-ok}
use rockets.Prelude.Act.{lift, continue-eq-ok}
use rockets.Json.{JsonLib, JsonLaws}
use rockets.Json.Access.{is_null, make_null}
use rockets.JsonRpc.Message.{Request, Response, make_response}
use rockets.JsonRpc.Message.Laws.{make_response-IsReplyTo}
use rockets.JsonRpc.Processor.{now, id_of, process_command}
use rockets.JsonRpc.Processor.Replies.{Replies, process_command-Replies}
use rockets.JsonRpc.Receiver.{Methods, is_registered_method_name, call_method, reply_to, run}

pub reply_to-Replies :
    (lib : JsonLib) (laws : JsonLaws lib) (id j : lib.Json) (rep : Response)
    → reply_to lib id rep ≡ ok (now j)
    → Replies lib id j
unfolding reply_to
reply_to-Replies lib laws id j rep h = elim (Bool-cases (is_null (lib.view id))) [
  | inl null ↦
      let same : make_null lib ≡ j = ground arith in
      record {
        quiet = λ _. rw (← same, laws.view-null) refl;
        reply = λ given. absurd (ground arith);
      }
  | inr given ↦
      let (j', made, k) =
        >>=-eq-ok (make_response lib rep id) (λ j'. ok (now j')) (rw given at h) in
      record {
        quiet = λ null. absurd (ground arith);
        reply = λ _. make_response-IsReplyTo lib laws rep id j (made ∙ ground arith);
      }
]

module _ (lib : JsonLib) (laws : JsonLaws lib) {A : Type 0} (methods : Methods A) where
  run-Replies :
      (id : lib.Json) (method : Text) (request : Request) (s s' : A) (j : lib.Json)
      → run lib methods id method request s ≡ (ok (now j), s')
      → Replies lib id j
  unfolding run
  run-Replies id method request s s' j h =
      let (rep, _, k) =
        continue-eq-ok (call_method methods method request s).0 (λ rep. lift (reply_to lib id rep))
          h in
      reply_to-Replies lib laws id j rep (ap (λ p. p.0) k)

  -- Where a synchronous receiver answers a request object, so no exception is thrown, it does so by the
  -- rules of JSON-RPC: with null, which is not sent, if the request has no id or a null one, and
  -- otherwise with an object of version 2.0 with the request's id and either a result or an error.
  pub receiver-Replies :
      (request : lib.Json) (client_id : ℕ) (s s' : A) (j : lib.Json)
      → process_command lib
          (λ s. is_registered_method_name methods)
          (run lib methods)
          request
          client_id
          s
        ≡ (ok (now j), s')
      → Replies lib (id_of lib request) j
  receiver-Replies =
      process_command-Replies lib laws (λ s. is_registered_method_name methods) (run lib methods)
        run-Replies
