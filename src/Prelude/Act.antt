-- ===== src/Prelude/Act.antt =====
-- Actions on a state that may throw. What was written before a throw stays written, so the state
-- comes back beside the exception.
use mathlib.Core.Path.{◌≡◌}
use native.Mathlib.Omega.{arith}
use package.rockets.Prelude.Result.{Exception, Result, ok, throw}

abbrev pub Act : Type 0 → Type 0 → Type 0
Act S A = S → Result A × S

module _ {S A : Type 0} where
  abbrev pub pure : A → Act S A
  pure a s = (ok a, s)

  abbrev pub raise : Exception → Act S A
  raise e s = (throw e, s)

  abbrev pub lift : Result A → Act S A
  lift r s = (r, s)

module _ {S A B : Type 0} where
  abbrev pub continue : Result A → (A → Act S B) → Act S B
  continue (ok a) f s = f a s
  continue (throw e) f s = (throw e, s)

  infixl 5 ◌>>=◌
  abbrev pub ◌>>=◌ : Act S A → (A → Act S B) → Act S B
  ◌>>=◌ m f s = let (r, s') = m s in continue r f s'

  pub continue-eq-ok :
      (r : Result A) (f : A → Act S B) {b : B} {s s' : S}
      → continue r f s ≡ (ok b, s')
      → (a : A) × (r ≡ ok a) × (f a s ≡ (ok b, s'))
  continue-eq-ok (ok a) f h = (a, ground arith, h)
  continue-eq-ok (throw e) f h = ground arith
