-- ===== src/Http/Lws.antt =====
-- What the HTTP modules call of libwebsockets, a library that the repository only links to: the
-- functions on one connection (`lws*`), over the state that the library keeps for it. A `true` in
-- a result is the failure of the call (a non-zero, or a negative, result).
use rockets.Prelude.{ℕ, Text, Bool, List}

-- The `lws_token_indexes` that the program names.
pub data Token : Type 0 where
  host origin content_length ac_request_headers : Token
  get_uri post_uri put_uri patch_uri delete_uri options_uri : Token
  allow content_type last_modified location retry_after : Token

pub record Lws : Type 1 where
  pub Wsi : Type 0
  -- lws_hdr_total_length; lws_hdr_copy of a whole header; the fragments that successive calls of
  -- lws_hdr_copy_fragment for WSI_TOKEN_HTTP_URI_ARGS give, up to the first that gives none
  pub hdr_total_length : Wsi → Token → ℕ
  pub hdr_copy : Wsi → Token → Text
  pub uri_args : Wsi → List Text
  -- lws_add_http_header_status, …_content_length, …_by_token, …_by_name, lws_finalize_http_header
  pub add_status : ℕ → Wsi → Bool × Wsi
  pub add_content_length : ℕ → Wsi → Bool × Wsi
  pub add_by_token : Token → Text → Wsi → Bool × Wsi
  pub add_by_name : Text → Text → Wsi → Bool × Wsi
  pub finalize_header : Wsi → Bool × Wsi
  -- lws_write of the prepared headers, and of a body
  pub write_headers : Wsi → Bool × Wsi
  pub write_final : Text → Wsi → Bool × Wsi
  pub callback_on_writable : Wsi → Wsi
  pub transaction_completed : Wsi → Bool × Wsi
  -- of a client: lws_http_client_http_response, lws_client_http_body_pending, lws_http_client_read
  pub http_response : Wsi → ℕ
  pub body_pending : Bool → Wsi → Wsi
  pub client_read : Wsi → Bool × Wsi
