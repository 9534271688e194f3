-- ===== src/ServiceThreads/Delivery.antt =====
-- No message of a broadcast is forgotten between the threads.
use rockets.Prelude.{◌<◌, ◌≡◌, Bool, true, false, ◌||◌, arith}
use rockets.ServiceThreads.{
  servicing, asked, ended, Place, State, enqueue, request_broadcast, ask, clear,
  handle_broadcast_request, write, service, stop, finish, round, Step, enqueues, requests, asks,
  clears, writes, fails, stops, Reach, here, next, start,
}

-- A message that waits will be seen to, and between the two calls of `handleBroadcastRequest` there is
-- a write callback to come.
record IsServed (s : State) : Type 0 where
  seen : 0 < s.waiting → (s.locked || s.broadcast_requested || s.scheduled) ≡ true
  coming : s.place ≡ asked → s.scheduled ≡ true

Step-IsServed : (s s' : State) → Step s s' → IsServed s → IsServed s'
unfolding enqueue request_broadcast ask clear write finish stop
Step-IsServed s s' (enqueues free e) v = ground arith
Step-IsServed s s' (requests taken e) v = ground arith
Step-IsServed s s' (asks idle asked_for on e) v = ground arith
Step-IsServed s s' (clears called e) v = ground arith
Step-IsServed s s' (writes left idle free due e) v = ground arith
Step-IsServed s s' (fails idle e) v = ground arith
Step-IsServed s s' (stops e) v = ground arith

Reach-IsServed : (s : State) → Reach start s → IsServed s
Reach-IsServed s here = ground arith
Reach-IsServed s (next {t = t} past step) = Step-IsServed t s step (Reach-IsServed t past)

abbrev pub is_ended : Place → Bool
is_ended ended = true
is_ended _ = false

-- What is left of the service thread's own steps, and two rounds of its loop, in which
-- `context.service` succeeds.
abbrev pub settle : State → State
settle s = elim s.place [
  | servicing ↦ round true (round true s)
  | asked ↦ round true (round true (clear s))
  | ended ↦ s
]

-- After any interleaving of broadcasts and the service thread, once no broadcast is under way, and
-- unless the loop of the service thread has ended or the pool was stopped, at most two rounds of that
-- loop in which `context.service` succeeds, behind the end of the one it is in, write all messages
-- that wait, if the socket takes them; nothing waits for another broadcast.
pub settle-delivers :
    (s : State)
    → Reach start s
    → s.locked ≡ false
    → s.exit_service ≡ false
    → is_ended s.place ≡ false
    → (settle s).waiting ≡ 0
unfolding round service finish handle_broadcast_request write ask clear
settle-delivers s past free on runs =
    let v = Reach-IsServed s past in ground (arith, v.seen, v.coming)
