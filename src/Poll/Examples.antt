-- ===== src/Poll/Examples.antt =====
-- Tests of the poll descriptors: one socket is there when the listener is set, another comes and the
-- first goes.
use rockets.Prelude.{ℕ, refl, [], ◌∷◌, ◌++◌, true, false}
use rockets.Prelude.Assoc.{find, nat_eq}
use rockets.Poll.{PollDescriptors, Pollargs, set_listener}
use rockets.Poll.Mirror.{
  IsMirror, adds, updates, removes, observe_all, perform_all, perform_all-IsMirror,
}

abbrev one_socket : PollDescriptors
one_socket = record {
  poll_descriptors = (5, record { events = 1; revents = 0 }) ∷ [];
  has_listener = false;
}

abbrev args : ℕ → ℕ → Pollargs
args fd events = record { fd = fd; events = events; prev_events = 0 }

perform_all-IsMirror_example :
    let (told, s₁) = set_listener true one_socket in
    let (later, s₂) =
      perform_all (adds (args 7 1) ∷ updates (args 7 4) ∷ removes (args 5 0) ∷ []) s₁ in
    IsMirror s₂.poll_descriptors (observe_all (told ++ later) [])
perform_all-IsMirror_example =
    perform_all-IsMirror (adds (args 7 1) ∷ updates (args 7 4) ∷ removes (args 5 0) ∷ []) one_socket
      (unfold find in (refl, tt))
