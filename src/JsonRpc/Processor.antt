-- ===== src/JsonRpc/Processor.antt =====
-- rockets/jsonrpc/requestProcessor.cpp: a message in, the text of the reply out. The virtual members
-- `isRegisteredMethodName` and `process` are the parameters `registered` and `run`.
pub mod Replies
pub mod Batch
use rockets.Prelude.{
  ℕ, Text, bytes, text_eq, is_empty, Bool, true, false, not, ◌&&◌, ◌||◌, Option, none, some, List,
  [], ◌∷◌, ◌++◌, is_some, if◌then◌else◌,
}
use rockets.Prelude.Result.{Exception, Result, ok, throw, parse_error, type_error, invalid_argument}
use rockets.Prelude.Result
use rockets.Prelude.Act.{Act, pure, lift, ◌>>=◌}
use rockets.Json.{JsonLib, View, array, object}
use rockets.Json.Access.{
  member, text, make_null, is_null, is_object, is_array, is_string, is_number, get_string, test,
  count,
}
use rockets.JsonRpc.ErrorCode
use rockets.JsonRpc.Message.{
  Error, Request, make_error, make_error_response, make_error_response_with, begins_with, parse,
}

abbrev pub parse_failed : Error
parse_failed = make_error (bytes "Parse error") ErrorCode.parse_error

abbrev pub bad_params : Error
bad_params = make_error (bytes "Invalid params") ErrorCode.invalid_params

abbrev pub bad_request : Error
bad_request = make_error (bytes "Invalid Request") ErrorCode.invalid_request

abbrev pub unknown_method : Error
unknown_method = make_error (bytes "Method not found") ErrorCode.method_not_found

-- verifyValidMethodName
unfoldable pub verify_valid_method_name : Text → Result (Unit {0})
unfolding begins_with
verify_valid_method_name method =
    if begins_with method (bytes "rpc.")
    then throw (
        invalid_argument
          (bytes "Method names starting with 'rpc.' are reserved by the standard / forbidden."))
    else ok tt

-- What became of the callback of a request: it was called with a value, or the application keeps it
-- to call it later.
pub data Answer {ℓ} (A : Type ℓ) : Type ℓ where
  now : A → Answer A
  later : Answer A

module _ (lib : JsonLib) where
  open lib use {Json, view}

  -- _isValidJsonRpcRequest; `get<std::string>()` throws on a "jsonrpc" that is no string.
  unfoldable pub is_valid_request : Json → Result Bool
  is_valid_request request = elim (member (bytes "jsonrpc") (view request)) [
    | none ↦ ok false
    | some v ↦ Result.◌>>=◌ (get_string (view v)) λ version. ok (
        text_eq version (bytes "2.0")
        && test lib request (bytes "method") is_string
        && (not (count lib request (bytes "params"))
            || test lib request (bytes "params") is_object
            || test lib request (bytes "params") is_array)
        && (not (count lib request (bytes "id"))
            || test lib request (bytes "id") is_number
            || test lib request (bytes "id") is_string))
  ]

  -- the anonymous namespace's `dump`
  unfoldable pub dump_reply : Json → Text
  dump_reply j = if is_null (view j) then [] else lib.dump j

  -- `responses` starts as null, and becomes an array with the first `push_back`.
  abbrev pub array_of : List Json → Json
  array_of [] = make_null lib
  array_of (r ∷ rs) = lib.make (array (r ∷ rs))

  -- request.count("id") ? request["id"] : json()
  unfoldable pub id_of : Json → Json
  id_of request = elim (member (bytes "id") (view request)) [ none ↦ make_null lib | some id ↦ id ]

  unfoldable pub params_of : Json → Text
  unfolding dump_reply
  params_of request = elim (member (bytes "params") (view request)) [
    | none ↦ []
    | some params ↦ dump_reply params
  ]

  -- request["method"].get<std::string>()
  unfoldable pub method_of : Json → Result Text
  method_of request = elim (member (bytes "method") (view request)) [
    | none ↦ throw Exception.undefined_behaviour
    | some m ↦ get_string (view m)
  ]

  -- `respond(json())` to a notification, and else the error
  unfoldable pub respond_error : Error → Json → Result (Answer Json)
  unfolding make_error_response
  respond_error error id =
      if is_null (view id)
      then ok (now (make_null lib))
      else Result.◌>>=◌ (make_error_response lib error id) λ e. ok (now e)

  module _ {S : Type 0} (registered : S → Text → Bool)
      (run : Json → Text → Request → Act S (Answer Json)) where
    unfoldable pub dispatch : Json → ℕ → Text → Act S (Answer Json)
    unfolding respond_error id_of params_of
    dispatch request client_id method s =
        if registered s method
        then run (id_of request) method
            (record { message = params_of request; client_id = client_id }) s
        else (respond_error unknown_method (id_of request), s)

    unfoldable pub process_valid : Json → ℕ → Bool → Act S (Answer Json)
    unfolding dispatch method_of
    process_valid request client_id false = lift (respond_error bad_request (id_of request))
    process_valid request client_id true = do
      method ← lift (method_of request)
      dispatch request client_id method

    -- _processCommand; the result is what `respond` was called with.
    unfoldable pub process_command : Json → ℕ → Act S (Answer Json)
    unfolding is_valid_request process_valid
    process_command request client_id = do
      valid ← lift (is_valid_request request)
      process_valid request client_id valid

  module _ {S : Type 0} (registered : S → Text → Bool)
      (run : Json → Text → Request → Act S (Answer Json)) (await : Json → Act S Json) where
    -- `future.get()`: where the callback was kept, it waits for the value that it is called with.
    wait_for : Json → Answer Json → Act S Json
    wait_for request (now reply) = pure reply
    wait_for request later = await request

    unfoldable pub process_command_blocking : Json → ℕ → Act S Json
    unfolding process_command wait_for
    process_command_blocking request client_id = do
      answer ← process_command registered run request client_id
      wait_for request answer

    -- One round of the loop over a batch: the reply, or null for none.
    unfoldable pub process_entry : Json → ℕ → Act S Json
    unfolding process_command_blocking make_error_response
    process_entry entry client_id =
        if is_object (view entry)
        then process_command_blocking entry client_id
        else lift (make_error_response lib bad_request (make_null lib))

    -- The replies so far are behind `responses`; null is left out.
    unfoldable pub process_entries : List Json → ℕ → List Json → Act S (List Json)
    unfolding process_entry
    process_entries responses client_id [] = pure responses
    process_entries responses client_id (entry ∷ entries) = do
      response ← process_entry entry client_id
      process_entries (if is_null (view response) then responses else responses ++ response ∷ [])
          client_id entries

    unfoldable pub process_batch_blocking : List Json → ℕ → Act S Text
    unfolding process_entries dump_reply
    process_batch_blocking [] client_id = pure []
    process_batch_blocking (entry ∷ entries) client_id = do
      responses ← process_entries [] client_id (entry ∷ entries)
      pure (dump_reply (array_of responses))

    unfoldable pub dump_answer : Answer Json → Answer Text
    unfolding dump_reply
    dump_answer (now j) = now (dump_reply j)
    dump_answer later = later

    unfoldable pub process_document : Json → View Json → ℕ → Act S (Answer Text)
    unfolding process_command process_batch_blocking dump_answer make_error_response
    process_document document (object fs) client_id = do
      answer ← process_command registered run document client_id
      pure (dump_answer answer)
    process_document document (array entries) client_id = do
      reply ← process_batch_blocking entries client_id
      pure (now reply)
    process_document document _ client_id = do
      e ← lift (make_error_response lib bad_params (make_null lib))
      pure (now (dump_reply e))

    -- catch (const json::parse_error& e): the message of the exception ends in the bytes that were
    -- read, which need not be UTF-8, so that `dump` may throw in turn.
    unfoldable pub catch_parse_error : Result (Answer Text) × S → Result (Answer Text) × S
    unfolding make_error_response_with dump_reply
    catch_parse_error (throw (parse_error what), s) =
        let reply : Json =
          make_error_response_with lib parse_failed (make_null lib) (text lib what) in
        (if lib.encodes reply then ok (now (dump_reply reply)) else throw type_error, s)
    catch_parse_error (r, s) = (r, s)

    -- RequestProcessor::process; the result is what `callback` was called with.
    unfoldable pub process : Request → Act S (Answer Text)
    unfolding process_document catch_parse_error parse
    process request s = catch_parse_error (
        (do
          document ← lift (parse lib request.message)
          process_document document (view document) request.client_id)
          s)
