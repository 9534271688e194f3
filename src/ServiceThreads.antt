-- ===== src/ServiceThreads.antt =====
-- rockets/serviceThreadPool.cpp, with the broadcast of server.cpp that it serves: one service thread,
-- one WebSocket connection that libwebsockets serves in it, and the threads that broadcast. Each entry
-- of `broadcastRequested` is its thread's own, so that one stands for all. The threads' steps are
-- the calls between which another thread may run.
pub mod Delivery
pub mod Examples
use rockets.Prelude.{ℕ, ◌+◌, ◌≡◌, Bool, true, false, not, ◌||◌, ltb, if◌then◌else◌}

-- Where the service thread is: in `context.service`, or in `handleBroadcastRequest` behind the call of
-- `context.requestBroadcast`; or its loop has ended.
pub data Place : Type 0 where
  servicing asked ended : Place

-- `waiting` messages are in the queue of the connection; `scheduled` says that libwebsockets was asked
-- for a write callback of it; `locked` that a broadcast holds the mutex of the connections, behind its
-- loop over them; `exit_service` that the pool was stopped.
pub record State : Type 0 where
  pub broadcast_requested : Bool
  pub place : Place
  pub waiting : ℕ
  pub scheduled : Bool
  pub locked : Bool
  pub exit_service : Bool

-- The loop of `broadcastText` puts a message into the queue of the connection.
unfoldable pub enqueue : State → State
enqueue s = record s { waiting = s.waiting + 1; locked = true }

-- requestBroadcast, for this thread; then the broadcast lets the mutex go.
unfoldable pub request_broadcast : State → State
request_broadcast s = record s { broadcast_requested = true; locked = false }

-- context.requestBroadcast()
unfoldable pub ask : State → State
ask s = record s { scheduled = true; place = asked }

-- broadcastRequested[tsi] = false
unfoldable pub clear : State → State
clear s = record s { broadcast_requested = false; place = servicing }

-- handleBroadcastRequest, undisturbed
unfoldable pub handle_broadcast_request : State → State
unfolding ask clear
handle_broadcast_request s = if s.broadcast_requested then clear (ask s) else s

-- The write callback, for which the mutex is free: it writes the queue up to the messages that are
-- `left` where the socket takes no more, and asks for another if there are some.
unfoldable pub write : ℕ → State → State
write left s = record s { waiting = left; scheduled = ltb 0 left }

-- context.service(tsi, serviceTimeoutMs), with a socket that takes all.
unfoldable pub service : State → State
unfolding write
service s = if s.scheduled then write 0 s else s

-- stop
unfoldable pub stop : State → State
stop s = record s { exit_service = true }

-- The end of the loop of the thread.
unfoldable pub finish : State → State
finish s = record s { place = ended }

-- One round of the loop of the thread, where `served` is what `context.service` returns: the loop ends
-- where that failed or the pool was stopped.
unfoldable pub round : Bool → State → State
unfolding service finish handle_broadcast_request
round served s =
    let s' = service s in
    if not served || s'.exit_service then finish s' else handle_broadcast_request s'

-- The steps of all threads, in any order. The loop may end at any call of `context.service`.
pub data Step (s s' : State) : Type 0 where
  enqueues : s.locked ≡ false → enqueue s ≡ s' → Step s s'
  requests : s.locked ≡ true → request_broadcast s ≡ s' → Step s s'
  asks :
      s.place ≡ servicing
      → s.broadcast_requested ≡ true
      → s.exit_service ≡ false
      → ask s ≡ s'
      → Step s s'
  clears : s.place ≡ asked → clear s ≡ s' → Step s s'
  writes :
      (left : ℕ)
      → s.place ≡ servicing
      → s.locked ≡ false
      → s.scheduled ≡ true
      → write left s ≡ s'
      → Step s s'
  fails : s.place ≡ servicing → finish s ≡ s' → Step s s'
  stops : stop s ≡ s' → Step s s'

pub data Reach (s : State) : State → Type 0 where
  here : Reach s s
  next : {t u : State} → Reach s t → Step t u → Reach s u

-- The pool when it starts, with a connection that is quiet.
abbrev pub start : State
start = record {
  broadcast_requested = false;
  place = servicing;
  waiting = 0;
  scheduled = false;
  locked = false;
  exit_service = false;
}
