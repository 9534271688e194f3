-- ===== src/JsonRpc/Requester/Processed.antt =====
-- What a processor makes of a request that a requester sent, whatever its methods are.
use rockets.Prelude.{ℕ, ◌≡◌, refl, Text, Bool, true, some, List, [], arith}
use rockets.Prelude.Assoc.{text_key}
use rockets.Prelude.Result.{ok}
use rockets.Prelude.Act.{Act}
use rockets.Json.{JsonLib, JsonLaws, View, null, object}
use rockets.Json.Access.{number, is_object}
use rockets.JsonRpc.Message.{Request, parse}
use rockets.JsonRpc.Processor.{
  Answer, now, process_command, process, process_document, dump_answer, dump_reply,
  catch_parse_error,
}
use rockets.JsonRpc.Requester.{make_request}
use rockets.JsonRpc.Requester.Made.{made-valid, made-id, made-params, made-method, made-object}

module _ (lib : JsonLib) (laws : JsonLaws lib) where
  -- A document that is an object is processed as a command.
  pub object_cases :
      (v : View lib.Json) → is_object v ≡ true → (fs : List (Text × lib.Json)) × (v ≡ object fs)
  object_cases (object fs) h = (fs, refl)
  object_cases null h = absurd (ground arith)
  object_cases _ h = absurd (ground arith)

  object_reply : (j : lib.Json) → is_object (lib.view j) ≡ true → dump_reply lib j ≡ lib.dump j
  unfolding dump_reply
  object_reply j h = let (fs, e) = object_cases (lib.view j) h in rw e refl

  module _ {S : Type 0} (registered : S → Text → Bool)
      (run : lib.Json → Text → Request → Act S (Answer lib.Json))
      (await : lib.Json → Act S lib.Json) (method : Text) (id client_id : ℕ) (reply : lib.Json)
      (s s' : S) (known : registered s method ≡ true)
      (runs : run (number lib id) method (record { message = []; client_id = client_id }) s
        ≡ (ok (now reply), s')) where
    commanded :
        process_command lib registered run (make_request lib method id) client_id s
        ≡ (ok (now reply), s')
    unfolding process_command
    commanded = ground (
      arith,
      made-valid lib laws method id,
      made-id lib laws method id,
      made-params lib laws method id,
      made-method lib laws method id,
    )

    abbrev sent : lib.Json
    sent = make_request lib method id

    module _ (structured : is_object (lib.view reply) ≡ true) where
      documented :
          (v : View lib.Json)
          → is_object v ≡ true
          → process_document lib registered run await sent v client_id s
            ≡ (ok (now (lib.dump reply)), s')
      unfolding process_document dump_answer
      documented v h =
          let (fs, e) = object_cases v h in ground (arith, commanded, object_reply reply structured)

      pub processed :
          lib.parse (lib.dump sent) ≡ some sent
          → process lib registered run await
              (record { message = lib.dump sent; client_id = client_id })
              s
            ≡ (ok (now (lib.dump reply)), s')
      unfolding process parse catch_parse_error
      processed carried =
          ground (arith, documented (lib.view sent) (made-object lib laws method id))
