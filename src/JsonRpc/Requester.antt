-- ===== src/JsonRpc/Requester.antt =====
-- rockets/jsonrpc/requester.cpp and requester.h: the client's side. `C` is the type of the callbacks
-- that wait for a response; calling one is an output. `size_t` has 64 bits.
pub mod Answers
pub mod Pending
pub mod Made
pub mod Processed
pub mod RoundTrip
use rockets.Prelude.{
  ℕ, ◌+◌, ◌-◌, ◌%◌, ◌^◌, Text, bytes, text_eq, is_empty, Bool, true, false, not, ◌&&◌, ◌||◌, Option,
  none, some, List, [], ◌∷◌, map, is_some, ltb, if◌then◌else◌,
}
use rockets.Prelude.Assoc.{find, emplace, erase, nat_eq}
use rockets.Prelude.Int.{ℤ, pos, negsuc}
use rockets.Prelude.Result.{Exception, Result, ok, throw, type_error, undefined_behaviour, ◌>>=◌}
use rockets.Json.{JsonLib, View, integer, unsigned, object, null}
use rockets.Json.Access.{
  member, text, number, make_null, is_null, is_object, is_string, is_number_integer, get_string,
  test, count,
}
use rockets.JsonRpc.ErrorCode
use rockets.JsonRpc.Message.{Error, Response, success, failure, make_error, invalid_params, parse}

abbrev pub size_mod : ℕ
size_mod = 2 ^ 64

pub record Requester (C : Type 0) : Type 0 where
  pub pending_requests : List (ℕ × C)
  pub last_id : ℕ

-- What a call does besides changing the requester: a callback that is called, a text that is sent.
pub data Effect (C : Type 0) : Type 0 where
  calls : C → Response → Effect C
  sends : Text → Effect C

abbrev pub destruction_error : Response
destruction_error = failure (
    make_error (bytes "Requester was destroyed before receiving a response")
      ErrorCode.request_aborted)

module _ {C : Type 0} where
  -- The requester after a request was put on the way.
  unfoldable pub store : C → Requester C → Requester C
  unfolding emplace
  store callback r = record {
    pending_requests = emplace r.last_id callback r.pending_requests;
    last_id = (r.last_id + 1) % size_mod;
  }

  abbrev pub returned_id : Requester C → ℕ
  returned_id r = (r.last_id + size_mod - 1) % size_mod

-- `get<int>()`; the conversion of a number to `int` keeps its low 32 bits.
abbrev pub to_int : ℕ → ℤ
to_int n = let low = n % 2 ^ 32 in if ltb low (2 ^ 31) then pos low else negsuc (2 ^ 32 - low - 1)

abbrev pub get_int : {J : Type 0} → View J → Result ℤ
get_int (integer (pos n)) = ok (to_int n)
get_int (integer (negsuc n)) = ok (to_int (2 ^ 32 - (n + 1) % 2 ^ 32))
get_int (unsigned n) = ok (to_int n)
get_int _ = throw type_error

module _ (lib : JsonLib) where
  open lib use {Json, view, make}

  abbrev pub request_fields : Text → ℕ → List (Text × Json) → List (Text × Json)
  request_fields method id rest =
      (bytes "jsonrpc", text lib (bytes "2.0"))
      ∷ (bytes "method", text lib method)
      ∷ (bytes "id", number lib id)
      ∷ rest

  -- The two `makeRequest`.
  unfoldable pub make_request : Text → ℕ → Json
  make_request method id = make (object (request_fields method id []))

  unfoldable pub make_request_with : Text → ℕ → Json → Json
  make_request_with method id params =
      make (object (request_fields method id ((bytes "params", params) ∷ [])))

  unfoldable pub is_valid_error : Json → Bool
  is_valid_error error =
      is_object (view error)
      && test lib error (bytes "code") is_number_integer
      && test lib error (bytes "message") is_string

  abbrev is_valid_id : View Json → Bool
  is_valid_id id = is_number_integer id || is_string id || is_null id

  unfoldable pub has_valid_error : Json → Bool
  unfolding is_valid_error
  has_valid_error response = elim (member (bytes "error") (view response)) [
    | none ↦ false
    | some error ↦ is_valid_error error
  ]

  -- isValidJsonRpcResponse; `get<std::string>()` throws on a "jsonrpc" that is no string.
  unfoldable pub is_valid_response : Json → Result Bool
  unfolding has_valid_error
  is_valid_response response = elim (member (bytes "jsonrpc") (view response)) [
    | none ↦ ok false
    | some v ↦ do
      version ← get_string (view v)
      ok (
          text_eq version (bytes "2.0")
          && (count lib response (bytes "result") && not (count lib response (bytes "error"))
              || count lib response (bytes "error")
                && not (count lib response (bytes "result"))
                && has_valid_error response)
          && test lib response (bytes "id") is_valid_id)
  ]

  abbrev at_key : Text → Json → Result Json
  at_key key j = elim (member key (view j)) [ none ↦ throw undefined_behaviour | some v ↦ ok v ]

  unfoldable pub error_of : Json → Result Response
  error_of error = do
    m ← at_key (bytes "message") error
    message ← get_string (view m)
    c ← at_key (bytes "code") error
    code ← get_int (view c)
    let details : Text = elim (member (bytes "data") (view error)) [
      | none ↦ []
      | some d ↦ lib.dump d
    ]
    ok (failure (record { message = message; code = code; data_text = details }))

  -- makeResponse of a response that is valid
  unfoldable pub response_of : Json → Result Response
  unfolding error_of
  response_of object' = elim (member (bytes "error") (view object')) [
    | some error ↦ error_of error
    | none ↦ do result ← at_key (bytes "result") object'; ok (success (lib.dump result))
  ]

  unfoldable pub request_json : Text → Text → ℕ → Option Json
  unfolding make_request make_request_with
  request_json method params id =
      if is_empty params
      then some (make_request method id)
      else elim (lib.parse params) [ none ↦ none | some p ↦ some (make_request_with method id p) ]

  module _ {C : Type 0} where
    -- The text of a request that is in the table is sent; `dump` may throw a type_error, which is not
    -- caught.
    unfoldable pub send_request : Json → Requester C → List (Effect C) × Result ℕ × Requester C
    send_request j r =
        if lib.encodes j
        then (sends (lib.dump j) ∷ [], ok (returned_id r), r)
        else ([], throw type_error, r)

    -- Requester::request with a callback: its effects, and the id that it returns.
    unfoldable pub request :
        Text → Text → C → Requester C → List (Effect C) × Result ℕ × Requester C
    unfolding request_json store send_request
    request method params callback r = elim (request_json method params r.last_id) [
      | none ↦ (calls callback invalid_params ∷ [], ok (returned_id r), r)
      | some j ↦ send_request j (store callback r)
    ]

    unfoldable pub respond_to :
        Json → ℕ → Option C → Requester C → Result (Bool × List (Effect C) × Requester C)
    unfolding erase
    respond_to response id none r = ok (false, [], r)
    respond_to response id (some callback) r = do
      rep ← response_of response
      ok (
        true,
        calls callback rep ∷ [],
        record r { pending_requests = erase id r.pending_requests },
      )

    unfoldable pub with_id :
        Json → View Json → Requester C → Result (Bool × List (Effect C) × Requester C)
    unfolding respond_to find
    with_id response (unsigned id) r =
        respond_to response (id % size_mod) (find (id % size_mod) r.pending_requests) r
    with_id response _ r = ok (false, [], r)

    unfoldable pub process_valid_response :
        Json → Bool → Requester C → Result (Bool × List (Effect C) × Requester C)
    unfolding with_id
    process_valid_response response false r = ok (false, [], r)
    process_valid_response response true r = do
      id ← at_key (bytes "id") response
      with_id response (view id) r

    -- Requester::processResponse; a text that is no JSON is a value without members.
    unfoldable pub process_response :
        Text → Requester C → Result (Bool × List (Effect C) × Requester C)
    unfolding is_valid_response process_valid_response
    process_response message r = elim (lib.parse message) [
      | none ↦ ok (false, [], r)
      | some response ↦ do
        valid ← is_valid_response response
        process_valid_response response valid r
    ]

module _ {C : Type 0} where
  abbrev pub new_requester : Requester C
  new_requester = record { pending_requests = []; last_id = 0 }

  -- ~Requester
  unfoldable pub destroy : Requester C → List (Effect C)
  destroy r = map (λ entry. calls entry.1 destruction_error) r.pending_requests
