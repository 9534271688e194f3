-- ===== src/Http/Client/Table.antt =====
-- The table of a client's requests: how often a promise waits in it.
use rockets.Prelude.{
  ℕ, ◌+◌, ◌≡◌, refl, inl, inr, Option, none, some, List, [], ◌∷◌, ◌++◌, ◌==◌, All, arith,
  if◌then◌else◌, Bool-cases,
}
use rockets.Prelude.Assoc.{find, put, erase, nat_eq, find-put, find-erase}
use rockets.Http.Lws.{Lws}
use rockets.Http.Client.{RequestHandler, Requests, Effect, calls, fails}

-- How often a promise is among some.
unfoldable pub count : ℕ → List ℕ → ℕ
count p [] = 0
count p (q ∷ qs) = (if p == q then 1 else 0) + count p qs

abbrev pub promise_of : Effect → ℕ
promise_of (calls f response) = f
promise_of (fails f message) = f

-- How often a promise was satisfied, by a value or by an exception.
unfoldable pub answered : ℕ → List Effect → ℕ
answered p [] = 0
answered p (e ∷ es) = (if p == promise_of e then 1 else 0) + answered p es

pub answered-append :
    (p : ℕ) (es fs : List Effect) → answered p (es ++ fs) ≡ answered p es + answered p fs
unfolding answered
answered-append p [] fs = omega arith
answered-append p (e ∷ es) fs = omega (arith, answered-append p es fs)

module _ {lws : Lws} where
  abbrev pub owes : ℕ → RequestHandler lws → ℕ
  owes p h = elim h.callback [ none ↦ 0 | some q ↦ if p == q then 1 else 0 ]

  -- How often a promise waits in the table.
  unfoldable pub pending : ℕ → Requests lws → ℕ
  pending p [] = 0
  pending p ((address, h) ∷ m) = owes p h + pending p m

  abbrev pub Unique : Requests lws → Type 0
  Unique [] = Unit
  Unique ((address, h) ∷ m) = (find address m ≡ none) × Unique m

  -- Both callbacks of each request are one promise, and no connection has two requests.
  pub record IsPromised (m : Requests lws) : Type 0 where
    pub both : All (λ e. e.1.callback ≡ e.1.error_callback) m
    pub unique : Unique m

  abbrev pub owed : ℕ → Option (RequestHandler lws) → ℕ
  owed p none = 0
  owed p (some h) = owes p h

  pub erase_absent : (a : ℕ) (m : Requests lws) → find a m ≡ none → erase a m ≡ m
  unfolding find erase
  erase_absent a [] h = refl
  erase_absent a ((b, x) ∷ m) h = ground (arith, erase_absent a m)

  pub pending-erase :
      (p a : ℕ) (m : Requests lws)
      → Unique m
      → pending p m ≡ owed p (find a m) + pending p (erase a m)
  unfolding find erase pending
  pending-erase p a [] u = refl
  pending-erase p a ((b, x) ∷ m) u = elim (Bool-cases (b == a)) [
    | inl same ↦
        let e : b ≡ a = ground arith in
        let gone : find a m ≡ none = rw e at u.0 in rw (same, erase_absent a m gone) refl
    | inr other ↦ rw other (omega (arith, pending-erase p a m u.1))
  ]

  pub pending-put :
      (p a : ℕ) (h h' : RequestHandler lws) (m : Requests lws)
      → find a m ≡ some h
      → h'.callback ≡ h.callback
      → pending p (put a h' m) ≡ pending p m
  unfolding find put pending
  pending-put p a h h' [] f e = absurd (ground arith)
  pending-put p a h h' ((b, x) ∷ m) f e = elim (Bool-cases (b == a)) [
    | inl same ↦ ground arith
    | inr other ↦ ground (arith, pending-put p a h h' m)
  ]

  pub pending-emplace :
      (p a : ℕ) (h : RequestHandler lws) (m : Requests lws)
      → find a m ≡ none
      → pending p (put a h m) ≡ owes p h + pending p m
  unfolding find put pending
  pending-emplace p a h [] f = refl
  pending-emplace p a h ((b, x) ∷ m) f = ground (arith, pending-emplace p a h m)

  pub erase-Unique : (a : ℕ) (m : Requests lws) → Unique m → Unique (erase a m)
  unfolding erase
  erase-Unique a [] u = tt
  erase-Unique a ((b, x) ∷ m) u = ground (arith, erase-Unique a m u.1, find-erase a b m)

  pub put-Unique :
      (a : ℕ) (h : RequestHandler lws) (m : Requests lws) → Unique m → Unique (put a h m)
  unfolding put find
  put-Unique a h [] u = (refl, tt)
  put-Unique a h ((b, x) ∷ m) u = ground (arith, put-Unique a h m u.1, find-put a b h m)

  abbrev pub Both : RequestHandler lws → Type 0
  Both h = h.callback ≡ h.error_callback

  pub erase-Both :
      (a : ℕ) (m : Requests lws) → All (λ e. Both e.1) m → All (λ e. Both e.1) (erase a m)
  unfolding erase
  erase-Both a [] v = tt
  erase-Both a ((b, x) ∷ m) v = ground (arith, erase-Both a m v.1)

  pub put-Both :
      (a : ℕ) (h : RequestHandler lws) (m : Requests lws)
      → Both h
      → All (λ e. Both e.1) m
      → All (λ e. Both e.1) (put a h m)
  unfolding put
  put-Both a h [] e v = (e, tt)
  put-Both a h ((b, x) ∷ m) e v = ground (arith, put-Both a h m e v.1)

  pub find-Both :
      (a : ℕ) (m : Requests lws) (h : RequestHandler lws)
      → find a m ≡ some h
      → All (λ e. Both e.1) m
      → Both h
  unfolding find
  find-Both a [] h f v = absurd (ground arith)
  find-Both a ((b, x) ∷ m) h f v = ground (arith, find-Both a m h)
