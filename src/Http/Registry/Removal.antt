-- ===== src/Http/Registry/Removal.antt =====
-- What `Registry::remove` does, over all methods and endpoints.
use rockets.Prelude.{
  ◌≡◌, ◌≢◌, ◌↔◌, refl, inl, inr, Text, text_eq, true, false, is_some, arith, if◌then◌else◌,
  Bool-cases,
}
use rockets.Prelude.Result.{ok, ◌>>=◌}
use rockets.Http.Types.{Method, get, post, put, patch, delete, options, all}
use rockets.Http.FuncMap
use rockets.Http.FuncMap.{IsSorted, begins_with_path}
use rockets.Http.FuncMap.Order.{lookup-erase}
use rockets.Http.Registry.{Registry, methods_at, remove, contains, get_function, IsValid}
use rockets.Http.Registry.Laws.{methods_at-IsSorted, methods_at-cases}

module _ {F : Type 0} where
  methods_at-remove :
      (r : Registry F) (endpoint : Text) (method : Method)
      → methods_at (remove r endpoint).1 method
        ≡ (methods_at r method >>= λ m. ok (FuncMap.erase endpoint m))
  unfolding methods_at remove
  methods_at-remove r endpoint get = refl
  methods_at-remove r endpoint _ = refl

  contains-remove :
      (r : Registry F) (endpoint : Text) (method : Method) (other : Text)
      → IsValid r
      → method ≢ all
      → contains (remove r endpoint).1 method other
        ≡ (if text_eq endpoint other then ok false else contains r method other)
  unfolding contains
  contains-remove r endpoint method other v ne = elim (methods_at-cases r method) [
    | inl (e, _) ↦ absurd (ne e)
    | inr (m, e) ↦ ground (
      arith,
      methods_at-remove r endpoint method,
      lookup-erase endpoint other m (methods_at-IsSorted r method m v e),
    )
  ]

  get_function-remove_ne :
      (r : Registry F) (endpoint : Text) (method : Method) (other : Text)
      → IsValid r
      → text_eq endpoint other ≡ false
      → get_function (remove r endpoint).1 method other ≡ get_function r method other
  unfolding get_function
  get_function-remove_ne r endpoint method other v ne = elim (methods_at-cases r method) [
    | inl (_, e) ↦ ground (arith, methods_at-remove r endpoint method)
    | inr (m, e) ↦ ground (
      arith,
      methods_at-remove r endpoint method,
      lookup-erase endpoint other m (methods_at-IsSorted r method m v e),
    )
  ]

  abbrev Held : Registry F → Text → Type 0
  Held r endpoint = (method : Method) × (contains r method endpoint ≡ ok true)

  removed-Held : (r : Registry F) (endpoint : Text) → (remove r endpoint).0 ≡ true → Held r endpoint
  unfolding remove contains methods_at
  removed-Held r endpoint h = elim (Bool-cases (is_some (FuncMap.lookup endpoint r.gets))) [
    | inl e ↦ (get, ground arith)
    | inr n₁ ↦ elim (Bool-cases (is_some (FuncMap.lookup endpoint r.posts))) [
      | inl e ↦ (post, ground arith)
      | inr n₂ ↦ elim (Bool-cases (is_some (FuncMap.lookup endpoint r.puts))) [
        | inl e ↦ (put, ground arith)
        | inr n₃ ↦ elim (Bool-cases (is_some (FuncMap.lookup endpoint r.patches))) [
          | inl e ↦ (patch, ground arith)
          | inr n₄ ↦ elim (Bool-cases (is_some (FuncMap.lookup endpoint r.deletes))) [
            | inl e ↦ (delete, ground arith)
            | inr n₅ ↦ (options, ground arith)
          ]
        ]
      ]
    ]
  ]

  Held-removed :
      (r : Registry F) (endpoint : Text) (method : Method)
      → contains r method endpoint ≡ ok true
      → (remove r endpoint).0 ≡ true
  unfolding remove contains methods_at
  Held-removed r endpoint all h = ground arith
  Held-removed r endpoint _ h = ground arith

  -- From a valid registry, an endpoint that is removed is in no method afterwards, every other one
  -- has the function that it had, and the result says whether some method had the endpoint.
  pub get_function-remove :
      (r : Registry F) (endpoint : Text)
      → IsValid r
      → ((method : Method) (other : Text)
          → method ≢ all
          → contains (remove r endpoint).1 method other
            ≡ (if text_eq endpoint other then ok false else contains r method other))
        × ((method : Method) (other : Text)
            → text_eq endpoint other ≡ false
            → get_function (remove r endpoint).1 method other ≡ get_function r method other)
        × (((remove r endpoint).0 ≡ true)
            ↔ ((method : Method) × (contains r method endpoint ≡ ok true)))
  get_function-remove r endpoint v = (
    λ method other ne. contains-remove r endpoint method other v ne,
    λ method other ne. get_function-remove_ne r endpoint method other v ne,
    (removed-Held r endpoint, λ h. Held-removed r endpoint h.0 h.1),
  )
