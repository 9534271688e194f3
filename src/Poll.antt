-- ===== src/Poll.antt =====
-- rockets/pollDescriptors.cpp: the sockets of libwebsockets, for an application that polls them in a
-- loop of its own, which a listener tells about them.
pub mod Mirror
pub mod Examples
use rockets.Prelude.{
  ℕ, Bool, true, false, Option, none, some, List, [], ◌∷◌, map, is_some, if◌then◌else◌,
}
use rockets.Prelude.Assoc.{find, put, erase, nat_eq}

-- `lws_pollfd`, by its descriptor, and `lws_pollargs`
pub record Pollfd : Type 0 where
  pub events : ℕ
  pub revents : ℕ

pub record Pollargs : Type 0 where
  pub fd : ℕ
  pub events : ℕ
  pub prev_events : ℕ

-- The calls of a SocketListener.
pub data Notice : Type 0 where
  on_new_socket : ℕ → ℕ → Notice
  on_update_socket : ℕ → ℕ → Notice
  on_delete_socket : ℕ → Notice

pub record PollDescriptors : Type 0 where
  pub poll_descriptors : List (ℕ × Pollfd)
  pub has_listener : Bool

abbrev notify : Bool → Notice → List Notice
notify has_listener notice = if has_listener then notice ∷ [] else []

abbrev pollfd : Pollargs → Pollfd
pollfd pa = record { events = pa.events; revents = pa.prev_events }

unfoldable pub add : Pollargs → PollDescriptors → List Notice × PollDescriptors
unfolding find put
add pa s = if is_some (find pa.fd s.poll_descriptors) then ([], s) else (
  notify s.has_listener (on_new_socket pa.fd pa.events),
  record s { poll_descriptors = put pa.fd (pollfd pa) s.poll_descriptors },
)

unfoldable pub update : Pollargs → PollDescriptors → List Notice × PollDescriptors
unfolding find put
update pa s =
    if is_some (find pa.fd s.poll_descriptors)
    then (
      notify s.has_listener (on_update_socket pa.fd pa.events),
      record s { poll_descriptors = put pa.fd (pollfd pa) s.poll_descriptors },
    )
    else ([], s)

unfoldable pub remove : Pollargs → PollDescriptors → List Notice × PollDescriptors
unfolding find erase
remove pa s =
    if is_some (find pa.fd s.poll_descriptors)
    then (
      notify s.has_listener (on_delete_socket pa.fd),
      record s { poll_descriptors = erase pa.fd s.poll_descriptors },
    )
    else ([], s)

-- The loop of `setListener`.
unfoldable pub announce : List (ℕ × Pollfd) → List Notice
announce [] = []
announce ((fd, p) ∷ m) = on_new_socket fd p.events ∷ announce m

unfoldable pub set_listener : Bool → PollDescriptors → List Notice × PollDescriptors
unfolding announce
set_listener listener s =
    (if listener then announce s.poll_descriptors else [], record s { has_listener = listener })

-- The part of `service` before it calls libwebsockets, which then may add, update and remove
-- sockets; none where it returns without a call.
unfoldable pub service : ℕ → ℕ → PollDescriptors → Option PollDescriptors
unfolding find put
service fd events s = elim (find fd s.poll_descriptors) [
  | none ↦ none
  | some p ↦
      some
        (record s { poll_descriptors = put fd (record p { revents = events }) s.poll_descriptors })
]
