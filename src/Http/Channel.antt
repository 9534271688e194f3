-- ===== src/Http/Channel.antt =====
-- rockets/http/channel.cpp: what the server reads of a request and writes of a response. `int` has
-- 32 bits and `size_t` 64.
use rockets.Prelude.{
  ℕ, ◌+◌, ◌-◌, ◌*◌, ◌^◌, Text, bytes, is_empty, Bool, true, false, ◌&&◌, ◌||◌, Option, none, some,
  List, [], ◌∷◌, ◌++◌, length, ltb, leb, ◌==◌, if◌then◌else◌,
}
use rockets.Prelude.Int.{ℤ, pos, negsuc, minus_one}
use rockets.Prelude.Assoc.{emplace, text_key}
use rockets.Http.Types.{
  Method, get, post, put, patch, delete, options, all, Header, CorsResponseHeaders,
  CorsRequestHeaders, Response, to_string,
}
use rockets.Http.Lws.{Lws, Token}

abbrev pub max_header_length : ℕ
max_header_length = 512

-- `std::stoi`: blanks, a sign, and digits up to the first other character; none where it throws.
abbrev is_blank : ℕ → Bool
is_blank c = c == 32 || leb 9 c && leb c 13

unfoldable pub skip_blanks : Text → Text
skip_blanks [] = []
skip_blanks (c ∷ s) = if is_blank c then skip_blanks s else c ∷ s

unfoldable pub read_digits : ℕ → Text → ℕ
read_digits n [] = n
read_digits n (c ∷ s) =
    let rest = read_digits (n * 10 + (c - 48)) s in if leb 48 c && leb c 57 then rest else n

unfoldable pub read_number : Text → Option ℕ
unfolding read_digits
read_number [] = none
read_number (c ∷ s) = if leb 48 c && leb c 57 then some (read_digits 0 (c ∷ s)) else none

abbrev in_int : Bool → Option ℕ → Option ℤ
in_int negative none = none
in_int true (some n) =
    if n == 0 then some (pos 0) else if leb n (2 ^ 31) then some (negsuc (n - 1)) else none
in_int false (some n) = if ltb n (2 ^ 31) then some (pos n) else none

unfoldable pub stoi_sign : Text → Option ℤ
unfolding read_number
stoi_sign [] = none
stoi_sign (c ∷ s) =
    if c == b'-'
    then in_int true (read_number s)
    else if c == b'+'
    then in_int false (read_number s)
    else in_int false (read_number (c ∷ s))

unfoldable pub stoi : Text → Option ℤ
unfolding stoi_sign skip_blanks
stoi s = stoi_sign (skip_blanks s)

-- The conversion of an `int` to `size_t`.
abbrev pub to_size : ℤ → ℕ
to_size (pos n) = n
to_size (negsuc n) = 2 ^ 64 - (n + 1)

-- frag.find('='), split there
unfoldable pub split_equal : Text → Text × Text
split_equal [] = ([], [])
split_equal (c ∷ s) = let (k, v) = split_equal s in if c == b'=' then ([], s) else (c ∷ k, v)

unfoldable pub to_lws_token : Header → Token
to_lws_token Header.allow = Token.allow
to_lws_token Header.content_type = Token.content_type
to_lws_token Header.last_modified = Token.last_modified
to_lws_token Header.location = Token.location
to_lws_token Header.retry_after = Token.retry_after

-- The loop of `readQueryParameters`.
unfoldable pub add_fragments : List Text → List (Text × Text) → List (Text × Text)
unfolding split_equal emplace
add_fragments [] query = query
add_fragments (frag ∷ frags) query =
    let (k, v) = split_equal frag in add_fragments frags (emplace k v query)

module _ (lws : Lws) where
  open lws use {Wsi}

  unfoldable pub read_header : Wsi → Token → Text
  read_header wsi token =
      let n = lws.hdr_total_length wsi token + 1 in
      if n == 1 || leb max_header_length n then [] else lws.hdr_copy wsi token

  unfoldable pub read_method : Wsi → Method
  read_method wsi =
      if has Token.get_uri
      then get
      else if has Token.post_uri
      then post
      else if has Token.put_uri
      then put
      else if has Token.patch_uri
      then patch
      else if has Token.delete_uri
      then delete
      else if has Token.options_uri
      then options
      else all
    where
      has : Token → Bool
      has t = ltb 0 (lws.hdr_total_length wsi t)

  unfoldable pub read_content_length : Wsi → ℕ
  unfolding read_header stoi
  read_content_length wsi =
      let header = read_header wsi Token.content_length in
      if is_empty header then 0 else elim (stoi header) [ none ↦ 0 | some n ↦ to_size n ]

  unfoldable pub read_query_parameters : Wsi → List (Text × Text)
  unfolding add_fragments
  read_query_parameters wsi = add_fragments (lws.uri_args wsi) []

  unfoldable pub read_cors_request_headers : Wsi → CorsRequestHeaders
  unfolding read_header
  read_cors_request_headers wsi = record {
    origin = read_header wsi Token.origin;
    access_control_request_headers = read_header wsi Token.ac_request_headers;
    access_control_request_method = all;
  }

  -- `if (call) return failure;` and then the rest
  abbrev pub or_return : ℤ → Bool × Wsi → (Wsi → ℤ × Wsi) → ℤ × Wsi
  or_return code (true, wsi) rest = (code, wsi)
  or_return code (false, wsi) rest = rest wsi

  unfoldable pub add_headers : List (Header × Text) → Wsi → (Wsi → ℤ × Wsi) → ℤ × Wsi
  unfolding to_lws_token
  add_headers [] wsi rest = rest wsi
  add_headers ((header, value) ∷ headers) wsi rest =
      or_return (pos 1) (lws.add_by_token (to_lws_token header) value wsi)
        λ wsi'. add_headers headers wsi' rest

  unfoldable pub add_cors_headers : CorsResponseHeaders → Wsi → (Wsi → ℤ × Wsi) → ℤ × Wsi
  unfolding to_string
  add_cors_headers [] wsi rest = rest wsi
  add_cors_headers ((header, value) ∷ headers) wsi rest =
      or_return (pos 1) (lws.add_by_name (to_string header ++ bytes ":") value wsi)
        λ wsi'. add_cors_headers headers wsi' rest

  -- Close and free connection if complete, else keep open.
  abbrev complete : Bool × Wsi → ℤ × Wsi
  complete (done, wsi) = (if done then minus_one else pos 0, wsi)

  unfoldable pub write_response_headers : CorsResponseHeaders → Response → Wsi → ℤ × Wsi
  unfolding add_headers add_cors_headers
  write_response_headers cors response wsi =
      or_return (pos 1) (lws.add_status response.code wsi) λ w₁.
        or_return (pos 1) (lws.add_content_length (length response.body) w₁) λ w₂.
          add_headers response.headers w₂ λ w₃. add_cors_headers cors w₃ λ w₄.
            or_return (pos 1) (lws.finalize_header w₄) λ w₅.
              or_return minus_one (lws.write_headers w₅) λ w₆.
                if is_empty response.body
                then complete (lws.transaction_completed w₆)
                else (pos 0, lws.callback_on_writable w₆)

  unfoldable pub write_response_body : Response → Wsi → ℤ × Wsi
  write_response_body response wsi =
      or_return minus_one (lws.write_final response.body wsi)
        λ w. complete (lws.transaction_completed w)
