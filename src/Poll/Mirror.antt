-- ===== src/Poll/Mirror.antt =====
-- A listener knows the sockets and their events.
use rockets.Prelude.{
  ℕ, ◌≡◌, refl, true, Option, none, some, List, [], ◌∷◌, ◌++◌, is_some, ◌==◌, arith, if◌then◌else◌,
  Bool-cases, inl, inr,
}
use rockets.Prelude.Assoc.{find, put, erase, nat_eq, find-put, find-erase}
use rockets.Poll.{
  Pollfd, Pollargs, PollDescriptors, Notice, on_new_socket, on_update_socket, on_delete_socket, add,
  update, remove, pollfd, announce, set_listener,
}

-- What a listener that keeps the events of each socket knows after a call.
abbrev pub observe : Notice → List (ℕ × ℕ) → List (ℕ × ℕ)
observe (on_new_socket fd events) w = put fd events w
observe (on_update_socket fd events) w = put fd events w
observe (on_delete_socket fd) w = erase fd w

abbrev pub observe_all : List Notice → List (ℕ × ℕ) → List (ℕ × ℕ)
observe_all [] w = w
observe_all (n ∷ ns) w = observe_all ns (observe n w)

abbrev pub events_of : Option Pollfd → Option ℕ
events_of none = none
events_of (some p) = some p.events

-- No descriptor has two entries.
abbrev pub Unique : List (ℕ × Pollfd) → Type 0
Unique [] = Unit
Unique ((fd, p) ∷ m) = (find fd m ≡ none) × Unique m

-- The listener knows each socket with its events, and no other.
pub record IsMirror (m : List (ℕ × Pollfd)) (w : List (ℕ × ℕ)) : Type 0 where
  pub same : (fd : ℕ) → find fd w ≡ events_of (find fd m)
  pub unique : Unique m

put-Unique : (k : ℕ) (p : Pollfd) (m : List (ℕ × Pollfd)) → Unique m → Unique (put k p m)
unfolding put find
put-Unique k p [] u = (refl, tt)
put-Unique k p ((j, q) ∷ m) u = ground (arith, put-Unique k p m u.1, find-put k j p m)

erase-Unique : (k : ℕ) (m : List (ℕ × Pollfd)) → Unique m → Unique (erase k m)
unfolding erase
erase-Unique k [] u = tt
erase-Unique k ((j, q) ∷ m) u = ground (arith, erase-Unique k m u.1, find-erase k j m)

put-IsMirror :
    (k : ℕ) (p : Pollfd) (m : List (ℕ × Pollfd)) (w : List (ℕ × ℕ))
    → IsMirror m w
    → IsMirror (put k p m) (put k p.events w)
put-IsMirror k p m w v = record {
  same = λ fd. ground (arith, find-put k fd p m, find-put k fd p.events w, v.same fd);
  unique = put-Unique k p m v.unique;
}

erase-IsMirror :
    (k : ℕ) (m : List (ℕ × Pollfd)) (w : List (ℕ × ℕ))
    → IsMirror m w
    → IsMirror (erase k m) (erase k w)
erase-IsMirror k m w v = record {
  same = λ fd. ground (arith, find-erase k fd m, find-erase k fd w, v.same fd);
  unique = erase-Unique k m v.unique;
}

announced :
    (m : List (ℕ × Pollfd)) (w : List (ℕ × ℕ)) (fd : ℕ)
    → Unique m
    → find fd (observe_all (announce m) w)
      ≡ (if is_some (find fd m) then events_of (find fd m) else find fd w)
unfolding announce find
announced [] w fd u = refl
announced ((k, p) ∷ m) w fd u = elim (Bool-cases (k == fd)) [
  | inl same ↦
      let e : k ≡ fd = ground arith in
      let absent : find fd m ≡ none = rw e at u.0 in
      ground (arith, announced m (put k p.events w) fd u.1, find-put k fd p.events w)
  | inr other ↦ ground (arith, announced m (put k p.events w) fd u.1, find-put k fd p.events w)
]

-- An operation on the sockets.
pub data Operation : Type 0 where
  adds updates removes : Pollargs → Operation

unfoldable pub perform : Operation → PollDescriptors → List Notice × PollDescriptors
unfolding add update remove
perform (adds pa) s = add pa s
perform (updates pa) s = update pa s
perform (removes pa) s = remove pa s

unfoldable pub perform_all : List Operation → PollDescriptors → List Notice × PollDescriptors
unfolding perform
perform_all [] s = ([], s)
perform_all (o ∷ os) s =
    let (ns, s') = perform o s in let (ms, s'') = perform_all os s' in (ns ++ ms, s'')

abbrev pub KeepsMirror : List Notice × PollDescriptors → List (ℕ × ℕ) → Type 0
KeepsMirror (ns, s') w = IsMirror s'.poll_descriptors (observe_all ns w) × (s'.has_listener ≡ true)

add-mirror :
    (pa : Pollargs) (s : PollDescriptors) (w : List (ℕ × ℕ))
    → s.has_listener ≡ true
    → IsMirror s.poll_descriptors w
    → KeepsMirror (add pa s) w
unfolding add
add-mirror pa s w l v = elim (Bool-cases (is_some (find pa.fd s.poll_descriptors))) [
  | inl known ↦ rw (known) (v, l)
  | inr new ↦ rw (new, l) (put-IsMirror pa.fd (pollfd pa) s.poll_descriptors w v, refl)
]

update-mirror :
    (pa : Pollargs) (s : PollDescriptors) (w : List (ℕ × ℕ))
    → s.has_listener ≡ true
    → IsMirror s.poll_descriptors w
    → KeepsMirror (update pa s) w
unfolding update
update-mirror pa s w l v = elim (Bool-cases (is_some (find pa.fd s.poll_descriptors))) [
  | inl known ↦ rw (known, l) (put-IsMirror pa.fd (pollfd pa) s.poll_descriptors w v, refl)
  | inr new ↦ rw (new) (v, l)
]

remove-mirror :
    (pa : Pollargs) (s : PollDescriptors) (w : List (ℕ × ℕ))
    → s.has_listener ≡ true
    → IsMirror s.poll_descriptors w
    → KeepsMirror (remove pa s) w
unfolding remove
remove-mirror pa s w l v = elim (Bool-cases (is_some (find pa.fd s.poll_descriptors))) [
  | inl known ↦ rw (known, l) (erase-IsMirror pa.fd s.poll_descriptors w v, refl)
  | inr new ↦ rw (new) (v, l)
]

perform-mirror :
    (o : Operation) (s : PollDescriptors) (w : List (ℕ × ℕ))
    → s.has_listener ≡ true
    → IsMirror s.poll_descriptors w
    → KeepsMirror (perform o s) w
unfolding perform
perform-mirror (adds pa) s w l v = add-mirror pa s w l v
perform-mirror (updates pa) s w l v = update-mirror pa s w l v
perform-mirror (removes pa) s w l v = remove-mirror pa s w l v

observe_all-append :
    (ns ms : List Notice) (w : List (ℕ × ℕ))
    → observe_all (ns ++ ms) w ≡ observe_all ms (observe_all ns w)
observe_all-append [] ms w = refl
observe_all-append (n ∷ ns) ms w = observe_all-append ns ms (observe n w)

perform_all-mirror :
    (os : List Operation) (s : PollDescriptors) (w : List (ℕ × ℕ))
    → s.has_listener ≡ true
    → IsMirror s.poll_descriptors w
    → KeepsMirror (perform_all os s) w
unfolding perform_all
perform_all-mirror [] s w l v = (v, l)
perform_all-mirror (o ∷ os) s w l v =
    let (v', l') = perform-mirror o s w l v in
    rw (observe_all-append (perform o s).0 (perform_all os (perform o s).1).0 w)
      (perform_all-mirror os (perform o s).1 (observe_all (perform o s).0 w) l' v')

-- A listener that is set on any sockets, each with one entry, and that is told of every addition,
-- update and removal after that, knows the sockets that there are with their events, and no other.
pub perform_all-IsMirror :
    (os : List Operation) (s : PollDescriptors)
    → Unique s.poll_descriptors
    → let (told, s₁) = set_listener true s in
      let (later, s₂) = perform_all os s₁ in
      IsMirror s₂.poll_descriptors (observe_all (told ++ later) [])
unfolding set_listener find
perform_all-IsMirror os s u =
    let start : IsMirror s.poll_descriptors (observe_all (announce s.poll_descriptors) []) =
      record { same = λ fd. ground (arith, announced s.poll_descriptors [] fd u); unique = u } in
    rw
      (observe_all-append (announce s.poll_descriptors)
        (perform_all os (record s { has_listener = true })).0 [])
      (perform_all-mirror os (record s { has_listener = true })
        (observe_all (announce s.poll_descriptors) []) refl start).0
