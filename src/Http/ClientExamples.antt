-- ===== src/Http/ClientExamples.antt =====
-- Tests of the HTTP client, on a libwebsockets that keeps a log, with and without a length of the
-- response.
use rockets.Prelude.{ℕ, ◌^◌, ◌≡◌, refl, bytes, true, false, some, [], ◌∷◌, ◌++◌, ltb, if◌then◌else◌}
use rockets.Prelude.Assoc.{find, put, erase, emplace, nat_eq}
use rockets.Prelude.Int.{pos}
use rockets.Prelude.Result.{ok}
use rockets.Http.Types.{make_response}
use rockets.Http.Lws.{Lws, Token}
use rockets.Http.Channel.{read_header, read_content_length}
use rockets.Http.Decimal.{to_string, digits}
use rockets.Http.Decimal.RoundTrip.{read_content_length-to_string}
use rockets.Http.Client.{
  RequestHandler, Requests, calls, established_client_http, completed_client_http, callback_http,
  make_handler, request, start_request, abort_pending_requests, finish_request, finish,
}
use rockets.Http.Client.Table.{count, answered}
use rockets.Http.Client.Runs.{Run, stop, start, call, promises_answered}
use rockets.Http.Client.Body.{receive_all, response_with, joined, callback_http-response}
use rockets.Http.Examples.{log_lws}

-- Every header is "12".
abbrev twelve_lws : Lws
twelve_lws = record log_lws { hdr_total_length = λ w t. 2; hdr_copy = λ w t. bytes "12" }

reads_twelve : read_header twelve_lws [] Token.content_length ≡ to_string 12
unfolding read_header to_string digits
reads_twelve = refl

read_content_length-to_string_example :
    read_content_length twelve_lws [] ≡ (if ltb 12 (2 ^ 31) then 12 else 0)
read_content_length-to_string_example = read_content_length-to_string twelve_lws [] 12 reads_twelve

abbrev waiting : (lws : Lws) → lws.Wsi → RequestHandler lws
waiting lws w = record {
  channel = w;
  body = bytes "x";
  callback = some 1;
  error_callback = some 1;
  response = record { code = 200; body = []; headers = [] };
  response_length = 0;
}

requested :
    request {lws = log_lws} (some (5, [])) (bytes "x") 1 [] ≡ ([], (5, waiting log_lws []) ∷ [])
unfolding request start_request emplace find put make_handler make_response
requested = refl

completed :
    callback_http 5 completed_client_http false ((5, waiting log_lws []) ∷ [])
    ≡ ok (pos 0, calls 1 (waiting log_lws []).response ∷ [], [])
unfolding callback_http finish_request finish find erase
completed = refl

one_request : Run {lws = log_lws} [] [] (1 ∷ []) (calls 1 (waiting log_lws []).response ∷ [])
unfolding find
one_request =
    start (some (5, [])) (bytes "x") 1 refl requested
      (call 5 completed_client_http false (pos 0) completed stop refl) refl

promises_answered_example :
    answered 1
      ((calls 1 (waiting log_lws []).response ∷ []) ++ abort_pending_requests {lws = log_lws} [])
    ≡ count 1 (1 ∷ [])
promises_answered_example = promises_answered 1 (1 ∷ []) _ [] one_request

there : (lws : Lws) (w : lws.Wsi) → find {K = ℕ} 5 ((5, waiting lws w) ∷ []) ≡ some (waiting lws w)
unfolding find
there lws w = refl

announced : ltb 0 (read_content_length twelve_lws []) ≡ true
unfolding read_content_length
announced = refl

callback_http-response_example :
    (s₁ s₂ : Requests twelve_lws) × (callback_http 5 established_client_http false
        ((5, waiting twelve_lws []) ∷ [])
      ≡ ok (pos 0, [], s₁))
    × (receive_all 5 (bytes "he" ∷ bytes "llo" ∷ []) s₁ ≡ ok ([], s₂))
    × (callback_http 5 completed_client_http false s₂
        ≡ ok (
          pos 0,
          calls 1 (
                response_with
                  (waiting twelve_lws [])
                  ([] ++ joined (bytes "he" ∷ bytes "llo" ∷ [])))
              ∷ [],
          erase 5 s₂,
        ))
callback_http-response_example =
    callback_http-response 5 1 (waiting twelve_lws []) ((5, waiting twelve_lws []) ∷ [])
      (bytes "he" ∷ bytes "llo" ∷ []) (there twelve_lws []) refl announced
