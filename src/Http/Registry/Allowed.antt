-- ===== src/Http/Registry/Allowed.antt =====
-- `getAllowedMethods` against its reading: the names of the methods that have the endpoint, in the
-- order of the enumeration, with commas between them.
use rockets.Prelude.{
  ◌≡◌, refl, ◌≢◌, ◌⊎◌, inl, inr, All, Text, bytes, is_empty, Bool, true, false, List, [], ◌∷◌, ◌++◌,
  is_some, arith,
}
use rockets.Prelude.Result.{Result, ok, throw}
use rockets.Http.Types.{Method, get, post, put, patch, delete, options, to_cstring}
use rockets.Http.FuncMap
use rockets.Http.Registry.{Registry, append_if, methods_at, contains, get_allowed_methods}

abbrev pub join : Text → List Text → Text
join sep [] = []
join sep (x ∷ []) = x
join sep (x ∷ y ∷ xs) = x ++ sep ++ join sep (y ∷ xs)

abbrev pub methods : List Method
methods = get ∷ post ∷ put ∷ patch ∷ delete ∷ options ∷ []

abbrev keep : Bool → Text → List Text → List Text
keep true name names = name ∷ names
keep false name names = names

abbrev is_true : Result Bool → Bool
is_true (ok b) = b
is_true (throw e) = false

abbrev name_of : Result Text → Text
name_of (ok name) = name
name_of (throw e) = []

-- The names of those methods of a list that have the endpoint.
unfoldable pub supported : {F : Type 0} → Registry F → Text → List Method → List Text
supported r endpoint [] = []
supported r endpoint (m ∷ ms) =
    keep (is_true (contains r m endpoint)) (name_of (to_cstring m)) (supported r endpoint ms)

join-append_if :
    (g p u t d o : Bool)
    → append_if o (bytes "OPTIONS") (
        append_if d (bytes "DELETE") (
          append_if t (bytes "PATCH") (
            append_if u (bytes "PUT") (append_if p (bytes "POST") (append_if g (bytes "GET") [])))))
      ≡ join (bytes ", ") (
          keep g (bytes "GET") (
            keep p (bytes "POST") (
              keep u
                (bytes "PUT")
                (keep t (bytes "PATCH") (keep d (bytes "DELETE") (keep o (bytes "OPTIONS") []))))))
join-append_if g p u t d o = ground arith

module _ {F : Type 0} where
  -- The value of the "Allow" header: the names, with ", " between them, of the methods for which the
  -- endpoint is registered, in the order GET, POST, PUT, PATCH, DELETE, OPTIONS.
  pub get_allowed_methods-join :
      (r : Registry F) (endpoint : Text)
      → get_allowed_methods r endpoint ≡ join (bytes ", ") (supported r endpoint methods)
  unfolding get_allowed_methods supported contains methods_at to_cstring
  get_allowed_methods-join r endpoint =
      join-append_if (has r.gets) (has r.posts) (has r.puts) (has r.patches) (has r.deletes)
        (has r.optionss)
    where
      has : List (Text × F) → Bool
      has m = is_some (FuncMap.lookup endpoint m)

-- A method that has an endpoint has a name.
supported-All :
    {F : Type 0} (r : Registry F) (endpoint : Text) (ms : List Method)
    → All (λ name. is_empty name ≡ false) (supported r endpoint ms)
unfolding supported contains methods_at to_cstring
supported-All r endpoint [] = tt
supported-All r endpoint (get ∷ ms) = ground (arith, supported-All r endpoint ms)
supported-All r endpoint (_ ∷ ms) = ground (arith, supported-All r endpoint ms)

is_empty-join :
    (sep : Text) (names : List Text)
    → All (λ name. is_empty name ≡ false) names
    → (names ≡ []) ⊎ ((names ≢ []) × (is_empty (join sep names) ≡ false))
is_empty-join sep [] h = inl refl
is_empty-join sep ([] ∷ names) h = absurd (ground arith)
is_empty-join sep ((c ∷ s) ∷ []) h = inr (ground arith, refl)
is_empty-join sep ((c ∷ s) ∷ n ∷ names) h = inr (ground arith, refl)

pub supported_nonempty :
    {F : Type 0} (r : Registry F) (endpoint : Text)
    → (supported r endpoint methods ≡ [])
      ⊎ ((supported r endpoint methods ≢ [])
          × (is_empty (join (bytes ", ") (supported r endpoint methods)) ≡ false))
supported_nonempty r endpoint =
    is_empty-join (bytes ", ") (supported r endpoint methods) (supported-All r endpoint methods)
