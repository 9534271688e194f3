-- ===== src/Http/ClientChannel.antt =====
-- The client's half of rockets/http/channel.cpp: the headers and the body of a request, the code and
-- the headers of a response.
use rockets.Prelude.{Text, bytes, is_empty, true, false, List, [], ◌∷◌, length, if◌then◌else◌}
use rockets.Prelude.Int.{ℤ, pos, minus_one}
use rockets.Http.Types.{Header, allow, content_type, last_modified, location, retry_after}
use rockets.Http.Lws.{Lws, Token}
use rockets.Http.Channel.{read_header, to_lws_token, or_return}
use rockets.Http.Decimal.{to_string}

-- The headers that a response is asked for.
abbrev pub response_headers : List Header
response_headers = allow ∷ content_type ∷ last_modified ∷ location ∷ retry_after ∷ []

module _ (lws : Lws) where
  open lws use {Wsi}

  unfoldable pub write_request_header : Text → Wsi → ℤ × Wsi
  unfolding to_string
  write_request_header body wsi =
      let with_body =
        or_return lws minus_one
          (lws.add_by_token Token.content_length (to_string (length body)) wsi)
          λ w₁.
            or_return lws minus_one
              (lws.add_by_token Token.content_type (bytes "application/json") w₁)
              λ w₂. (pos 0, lws.callback_on_writable (lws.body_pending true w₂)) in
      if is_empty body then (pos 0, wsi) else with_body

  unfoldable pub write_request_body : Text → Wsi → ℤ × Wsi
  write_request_body body wsi =
      or_return lws minus_one (lws.write_final body wsi) λ w. (pos 0, lws.body_pending false w)

  unfoldable pub read_headers : List Header → Wsi → List (Header × Text)
  unfolding read_header to_lws_token
  read_headers [] wsi = []
  read_headers (header ∷ headers) wsi =
      let value = read_header lws wsi (to_lws_token header) in
      let rest = read_headers headers wsi in if is_empty value then rest else (header, value) ∷ rest

  -- readResponseHeaders
  unfoldable pub read_response_headers : Wsi → List (Header × Text)
  unfolding read_headers
  read_response_headers wsi = read_headers response_headers wsi
