-- ===== src/Prelude/Assoc.antt =====
-- Maps whose order of iteration no behaviour depends on, as association lists: `find`, `put` for
-- `m[k] = v`, `emplace`, and `erase`.
use mathlib.Core.Path.{◌≡◌, refl, ap}
use mathlib.Core.Logic.{inl, inr}
use mathlib.Core.Bool.{Bool, true}
use mathlib.Core.Option.{Option, none, some}
use mathlib.Core.List.{List, [], ◌∷◌}
use native.Mathlib.Omega.{arith}
use Prim.Native.Nat.{ℕ}
use package.rockets.Prelude.Tests.{◌==◌, if◌then◌else◌, is_some, Bool-cases}
use package.rockets.Prelude.Strings.{Text, text_eq, text_eq_refl, text_eq_sound}

-- Keys are told apart by an equivalence.
pub record Eq (A : Type 0) : Type 0 where
  pub beq : A → A → Bool
  pub beq_self : (a : A) → beq a a ≡ true
  pub beq_congr : (a b c : A) → beq a b ≡ true → beq a c ≡ beq b c

pub nat_self : (a : ℕ) → (a == a) ≡ true
nat_self a = ground arith

pub nat_congr : (a b c : ℕ) → (a == b) ≡ true → (a == c) ≡ (b == c)
nat_congr a b c h = ground arith

pub text_congr : (a b c : Text) → text_eq a b ≡ true → text_eq a c ≡ text_eq b c
text_congr a b c h = ap (λ t. text_eq t c) (text_eq_sound a b h)

instance abbrev pub nat_eq : Eq ℕ
nat_eq = record { beq = ◌==◌; beq_self = nat_self; beq_congr = nat_congr }

instance abbrev pub text_key : Eq Text
text_key = record { beq = text_eq; beq_self = text_eq_refl; beq_congr = text_congr }

module _ {ℓ} {K : Type 0} ⦃e : Eq K⦄ {V : Type ℓ} where
  unfoldable pub find : K → List (K × V) → Option V
  find k [] = none
  find k ((j, v) ∷ m) = if e.beq j k then some v else find k m

  -- m[k] = v
  unfoldable pub put : K → V → List (K × V) → List (K × V)
  put k v [] = (k, v) ∷ []
  put k v ((j, w) ∷ m) = if e.beq j k then (j, v) ∷ m else (j, w) ∷ put k v m

  -- An entry that is already there is kept.
  unfoldable pub emplace : K → V → List (K × V) → List (K × V)
  unfolding find put
  emplace k v m = if is_some (find k m) then m else put k v m

  unfoldable pub erase : K → List (K × V) → List (K × V)
  erase k [] = []
  erase k ((j, v) ∷ m) = let rest = erase k m in if e.beq j k then rest else (j, v) ∷ rest

  pub find-put :
      (k j : K) (v : V) (m : List (K × V))
      → find j (put k v m) ≡ (if e.beq k j then some v else find j m)
  unfolding find put
  find-put k j v [] = refl
  find-put k j v ((i, w) ∷ m) = ground (
    arith,
    e.beq_congr i k j,
    e.beq_congr i j k,
    e.beq_congr k j k,
    e.beq_self k,
    find-put k j v m,
  )

  pub find-erase :
      (k j : K) (m : List (K × V)) → find j (erase k m) ≡ (if e.beq k j then none else find j m)
  unfolding find erase
  find-erase k j [] = ground arith
  find-erase k j ((i, w) ∷ m) = ground (
    arith,
    e.beq_congr i k j,
    e.beq_congr i j k,
    e.beq_congr k j k,
    e.beq_self k,
    find-erase k j m,
  )

  pub find-emplace :
      (k j : K) (v : V) (m : List (K × V))
      → find k m ≡ none
      → find j (emplace k v m) ≡ (if e.beq k j then some v else find j m)
  unfolding emplace
  find-emplace k j v m h = rw h (find-put k j v m)

  pub find-emplace_self :
      (k : K) (v : V) (m : List (K × V)) → is_some (find k (emplace k v m)) ≡ true
  unfolding emplace
  find-emplace_self k v m = elim (Bool-cases (is_some (find k m))) [
    | inl there ↦ rw there there
    | inr new ↦ rw (new, find-put k k v m, e.beq_self k) refl
  ]

pub ruleset map_laws = (find-put, find-erase)
