-- ===== src/Prelude/Result.antt =====
-- C++ exceptions as values. `undefined_behaviour` stands for a step that the language gives no
-- meaning to, such as an index past the end of an array.
use mathlib.Core.Path.{◌≡◌, refl}
use native.Mathlib.Omega.{arith}
use package.rockets.Prelude.Strings.{Text}
use package.rockets.Prelude.Int.{ℤ}

pub data Exception : Type 0 where
  logic_error : Text → Exception
  invalid_argument : Text → Exception
  runtime_error : Text → Exception
  parse_error : Text → Exception
  type_error : Exception
  response_error : Text → ℤ → Exception
  future_error : Exception
  out_of_range : Exception
  bad_function_call : Exception
  undefined_behaviour : Exception

pub data Result {ℓ} (A : Type ℓ) : Type ℓ where
  ok : A → Result A
  throw : Exception → Result A

-- An exception goes past what follows.
infixl 5 ◌>>=◌
abbrev pub ◌>>=◌ {κ ℓ} : {X : Type κ} {Y : Type ℓ} → Result X → (X → Result Y) → Result Y
throw exception >>= next = throw exception
ok x >>= next = next x

-- A chain that returns returned at each of its steps.
pub >>=-eq-ok {κ ℓ} :
    {X : Type κ} {Y : Type ℓ} (first : Result X) (next : X → Result Y) {y : Y}
    → (first >>= next) ≡ ok y
    → (x : X) × (first ≡ ok x) × (next x ≡ ok y)
>>=-eq-ok (throw exception) next returned = absurd (ground arith)
>>=-eq-ok (ok x) next returned = (x, refl, returned)

pub ok-injective {ℓ} : {X : Type ℓ} {x y : X} → ok x ≡ ok y → x ≡ y
ok-injective same = ground arith
