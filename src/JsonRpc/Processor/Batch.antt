-- ===== src/JsonRpc/Processor/Batch.antt =====
-- The loop over a batch against the list of its replies.
use mathlib.Core.List.{append-nil, append_assoc}
use rockets.Prelude.{
  ℕ, ◌≡◌, refl, ap, ◌∙◌, inl, inr, Text, Bool, List, [], ◌∷◌, ◌++◌, if◌then◌else◌, Bool-cases,
}
use rockets.Prelude.Result.{Result, ok, throw}
use rockets.Prelude.Act.{Act, pure, ◌>>=◌, continue}
use rockets.Json.{JsonLib, JsonLaws}
use rockets.Json.Access.{is_null}
use rockets.JsonRpc.Message.{Request}
use rockets.JsonRpc.Processor.{
  Answer, process_entry, process_entries, process_batch_blocking, array_of, dump_reply,
}

abbrev pub prepend : {A S : Type 0} → List A → Result (List A) × S → Result (List A) × S
prepend xs (ok ys, s) = (ok (xs ++ ys), s)
prepend xs (throw e, s) = (throw e, s)

module _ (lib : JsonLib) {S : Type 0} (registered : S → Text → Bool)
    (run : lib.Json → Text → Request → Act S (Answer lib.Json))
    (await : lib.Json → Act S lib.Json) where
  open lib use {Json, view}

  -- The replies to the entries of a batch, in their order, each entry processed in the state that
  -- those before it left; an entry whose reply is null has none.
  pub collect : ℕ → List Json → Act S (List Json)
  collect client_id [] = pure []
  collect client_id (entry ∷ entries) = do
    response ← process_entry lib registered run await entry client_id
    rest ← collect client_id entries
    pure (if is_null (view response) then rest else response ∷ rest)

  -- The rest of a round, from its reply.
  abbrev then_collect : ℕ → List Json → Json → Act S (List Json)
  then_collect client_id entries response = do
    rest ← collect client_id entries
    pure (if is_null (view response) then rest else response ∷ rest)

  abbrev add_reply : List Json → Json → List Json
  add_reply acc response = if is_null (view response) then acc else acc ++ response ∷ []

  regroup :
      (acc : List Json) (response : Json) (r : Result (List Json) × S)
      → prepend (add_reply acc response) r
        ≡ prepend acc (
            continue r.0
              (λ rest. pure (if is_null (view response) then rest else response ∷ rest))
              r.1)
  regroup acc response (throw e, t) = refl
  regroup acc response (ok rest, t) = elim (Bool-cases (is_null (view response))) [
    | inl none_sent ↦ rw none_sent refl
    | inr sent ↦ rw (sent, append_assoc) refl
  ]

  -- One round, given the law for the entries behind it.
  round :
      (acc : List Json) (client_id : ℕ) (entries : List Json)
      → ((acc' : List Json) (t : S)
          → process_entries lib registered run await acc' client_id entries t
            ≡ prepend acc' (collect client_id entries t))
      → (r : Result Json × S)
      → continue r.0
          (λ response.
            process_entries lib registered run await (add_reply acc response) client_id entries)
          r.1
        ≡ prepend acc (continue r.0 (then_collect client_id entries) r.1)
  round acc client_id entries ih (throw e, t) = refl
  round acc client_id entries ih (ok response, t) =
      ih (add_reply acc response) t ∙ regroup acc response (collect client_id entries t)

  process_entries-collect :
      (acc : List Json) (client_id : ℕ) (entries : List Json) (s : S)
      → process_entries lib registered run await acc client_id entries s
        ≡ prepend acc (collect client_id entries s)
  unfolding process_entries collect
  process_entries-collect acc client_id [] s = rw append-nil refl
  process_entries-collect acc client_id (entry ∷ entries) s =
      round acc client_id entries (λ acc' t. process_entries-collect acc' client_id entries t)
        (process_entry lib registered run await entry client_id s)

  -- What a batch is answered with, from its replies.
  abbrev pub batch_text : Result (List Json) × S → Result Text × S
  batch_text (ok replies, s) = (ok (dump_reply lib (array_of lib replies)), s)
  batch_text (throw e, s) = (throw e, s)

  batch_of :
      (r : Result (List Json) × S)
      → continue r.0 (λ responses. pure (dump_reply lib (array_of lib responses))) r.1
        ≡ batch_text r
  batch_of (ok replies, s) = refl
  batch_of (throw e, s) = refl

  prepend_nil : (r : Result (List Json) × S) → prepend [] r ≡ r
  prepend_nil (ok replies, s) = refl
  prepend_nil (throw e, s) = refl

  null_text :
      JsonLaws lib
      → (s : S) → ◌≡◌ {A = Result Text × S} (ok [], s) (ok (dump_reply lib (array_of lib [])), s)
  unfolding dump_reply
  null_text laws s = rw laws.view-null refl

  -- A batch is answered with the array of the replies to its entries, in their order and without the
  -- null ones, and with the empty text if there is none; an exception of an entry ends the batch.
  pub process_batch_blocking-collect :
      JsonLaws lib
      → (client_id : ℕ) (entries : List Json) (s : S)
      → process_batch_blocking lib registered run await entries client_id s
        ≡ batch_text (collect client_id entries s)
  unfolding process_batch_blocking collect
  process_batch_blocking-collect laws client_id [] s = null_text laws s
  process_batch_blocking-collect laws client_id (entry ∷ entries) s =
      batch_of (process_entries lib registered run await [] client_id (entry ∷ entries) s)
      ∙ ap batch_text (
          process_entries-collect [] client_id (entry ∷ entries) s
          ∙ prepend_nil (collect client_id (entry ∷ entries) s))
