-- ===== src/ServiceThreads/Examples.antt =====
-- Tests of the service threads: a second broadcast comes between the two calls of
-- `handleBroadcastRequest` for the first.
use rockets.Prelude.{◌≡◌, refl, true, false}
use rockets.ServiceThreads.{
  State, asked, enqueue, request_broadcast, ask, enqueues, requests, asks, Reach, here, next, start,
}
use rockets.ServiceThreads.Delivery.{settle, settle-delivers}

abbrev between : State
between = record {
  broadcast_requested = true;
  place = asked;
  waiting = 2;
  scheduled = true;
  locked = false;
  exit_service = false;
}

overlapping : Reach start between
unfolding enqueue request_broadcast ask
overlapping =
    next
      (next
        (next (next (next here (enqueues refl refl)) (requests refl refl))
          (asks refl refl refl refl))
        (enqueues refl refl))
      (requests refl refl)

settle-delivers_example : (settle between).waiting ≡ 0
settle-delivers_example = settle-delivers between overlapping refl refl refl
