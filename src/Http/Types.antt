-- ===== src/Http/Types.antt =====
-- rockets/http/types.h, cors.h, request.h, response.h, utils.cpp and helpers.h: the data of
-- requests and responses.
use rockets.Prelude.{ℕ, Text, bytes, List, [], ◌∷◌, Bool, true, false}
use rockets.Prelude.Result.{Exception, Result, ok, throw, logic_error}

pub data Method : Type 0 where
  get post put patch delete options all : Method

-- int(method)
unfoldable pub ordinal : Method → ℕ
ordinal get = 0
ordinal post = 1
ordinal put = 2
ordinal patch = 3
ordinal delete = 4
ordinal options = 5
ordinal all = 6

unfoldable pub to_cstring : Method → Result Text
to_cstring get = ok (bytes "GET")
to_cstring post = ok (bytes "POST")
to_cstring put = ok (bytes "PUT")
to_cstring patch = ok (bytes "PATCH")
to_cstring delete = ok (bytes "DELETE")
to_cstring options = ok (bytes "OPTIONS")
to_cstring all = throw (logic_error (bytes "unsupported http method"))

pub data Header : Type 0 where
  allow content_type last_modified location retry_after : Header

pub data CorsResponseHeader : Type 0 where
  access_control_allow_headers access_control_allow_methods access_control_allow_origin :
      CorsResponseHeader

-- The switch has a case for each header, so its default, which throws, is never reached.
unfoldable pub to_string : CorsResponseHeader → Text
to_string access_control_allow_headers = bytes "access-control-allow-headers"
to_string access_control_allow_methods = bytes "access-control-allow-methods"
to_string access_control_allow_origin = bytes "access-control-allow-origin"

abbrev pub CorsResponseHeaders : Type 0
CorsResponseHeaders = List (CorsResponseHeader × Text)

pub record CorsRequestHeaders : Type 0 where
  pub origin : Text
  pub access_control_request_headers : Text
  pub access_control_request_method : Method

pub record Request : Type 0 where
  pub method : Method
  pub path : Text
  pub origin : Text
  pub host : Text
  pub query : List (Text × Text)
  pub body : Text

-- `std::future<Response>`, as `wait_for` and `get` see it: without a shared state, not ready yet,
-- ready, with an exception of the application, or with a broken promise.
pub data Future {ℓ} (A : Type ℓ) : Type ℓ where
  invalid pending : Future A
  ready : A → Future A
  failed : Exception → Future A
  broken : Future A

-- rockets/helpers.h
unfoldable pub is_ready {ℓ} : {A : Type ℓ} → Future A → Bool
is_ready invalid = false
is_ready pending = false
is_ready _ = true

pub record Response : Type 0 where
  pub code : ℕ
  pub body : Text
  pub headers : List (Header × Text)

-- The constructor with its default arguments, and the one with a content type.
unfoldable pub make_response : ℕ → Text → Response
make_response code body = record { code = code; body = body; headers = [] }

unfoldable pub make_typed_response : ℕ → Text → Text → Response
make_typed_response code body type = record {
  code = code;
  body = body;
  headers = (content_type, type) ∷ [];
}

unfoldable pub make_ready_response : Response → Future Response
make_ready_response response = ready response
