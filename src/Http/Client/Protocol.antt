-- ===== src/Http/Client/Protocol.antt =====
-- rockets/http/client.cpp: the whole of a client, with its context and its sockets, over the table of
-- its requests. `has_protocol` says whether libwebsockets gives a protocol for the connection.
use rockets.Prelude.{ℕ, Text, Bool, Option, List, [], if◌then◌else◌}
use rockets.Prelude.Int.{ℤ, pos}
use rockets.Prelude.Result.{Result, ok, throw, ◌>>=◌}
use rockets.Poll.{Notice, Pollargs, PollDescriptors, add, update, remove, set_listener}
use rockets.ClientContext.{Environment, Context, start_http_request}
use rockets.Http.Types.{Method}
use rockets.Http.Lws.{Lws}
use rockets.Http.Client.{
  Effect, Requests, Reason, start_request, callback_http, abort_pending_requests,
}

pub record HttpClient (lws : Lws) : Type 0 where
  pub requests : Requests lws
  pub context : Context
  pub poll_descriptors : PollDescriptors

-- The reasons of `lws_callback_reasons`.
pub data Report : Type 0 where
  concerns_request : Reason → Report
  add_poll_fd del_poll_fd change_mode_poll_fd : Pollargs → Report
  other_reason : Report

unfoldable pub handle_poll : Report → PollDescriptors → List Notice × PollDescriptors
unfolding add remove update
handle_poll (add_poll_fd pa) poll = add pa poll
handle_poll (del_poll_fd pa) poll = remove pa poll
handle_poll (change_mode_poll_fd pa) poll = update pa poll
handle_poll _ poll = ([], poll)

module _ {lws : Lws} where
  unfoldable pub handle_request :
      ℕ → Report → Bool → Requests lws → Result (ℤ × List Effect × Requests lws)
  unfolding callback_http
  handle_request address (concerns_request reason) failed requests =
      callback_http address reason failed requests
  handle_request address _ failed requests = ok (pos 0, [], requests)

  -- callback_http
  unfoldable pub callback :
      Bool
      → ℕ
      → Report
      → Bool
      → HttpClient lws
      → Result (ℤ × List Effect × List Notice × HttpClient lws)
  unfolding handle_request handle_poll
  callback has_protocol address report failed c =
      let rest = do
        (code, effects, requests) ← handle_request address report failed c.requests
        let (notices, poll) = handle_poll report c.poll_descriptors
        ok (code, effects, notices, record c { requests = requests; poll_descriptors = poll })
      in if has_protocol then rest else ok (pos 0, [], [], c)

  -- Client::request with callbacks; `connected` is what lws_client_connect_via_info gives.
  unfoldable pub request_with :
      Environment
      → Method
      → Text
      → Text
      → Option ℕ
      → Option ℕ
      → Option (ℕ × lws.Wsi)
      → HttpClient lws
      → Result (List Effect) × HttpClient lws
  unfolding start_http_request start_request
  request_with env method uri body callback error_callback connected c =
      let (started, context) = start_http_request env method uri c.context in
      let (effects, requests) = start_request connected body callback error_callback c.requests in
      elim started [
        | throw e ↦ (throw e, record c { context = context })
        | ok info ↦ (ok effects, record c { context = context; requests = requests })
      ]

  unfoldable pub set_socket_listener : Bool → HttpClient lws → List Notice × HttpClient lws
  unfolding set_listener
  set_socket_listener listener c =
      let (notices, poll) = set_listener listener c.poll_descriptors in
      (notices, record c { poll_descriptors = poll })

  -- ~Client
  unfoldable pub destroy : HttpClient lws → List Effect
  unfolding abort_pending_requests
  destroy c = abort_pending_requests c.requests
