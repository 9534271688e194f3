-- ===== src/Http/FuncMap.antt =====
-- `Registry::FuncMap` of rockets/http/registry.h: `std::map<std::string, RESTFunc,
-- std::greater<std::string>>`, the entries in the order of iteration, greatest endpoint first.
pub mod Order
use rockets.Prelude.{
  Text, text_eq, text_less, is_empty, is_prefix, Bool, true, ◌≡◌, Option, none, some, List, [], ◌∷◌,
  if◌then◌else◌,
}

-- `beginsWithPath` of `Registry::_find`
unfoldable pub begins_with_path : Text → Text → Bool
begins_with_path path endpoint =
    if is_empty endpoint then is_empty path else is_prefix endpoint path

module _ {ℓ} {F : Type ℓ} where
  -- funcMap.find(endpoint)
  unfoldable pub lookup : Text → List (Text × F) → Option F
  lookup k [] = none
  lookup k ((j, f) ∷ m) = if text_eq j k then some f else lookup k m

  -- funcMap[endpoint] = func
  unfoldable pub set : Text → F → List (Text × F) → List (Text × F)
  set k f [] = (k, f) ∷ []
  set k f ((j, g) ∷ m) =
      if text_less j k
      then (k, f) ∷ (j, g) ∷ m
      else if text_eq j k
      then (k, f) ∷ m
      else (j, g) ∷ set k f m

  unfoldable pub erase : Text → List (Text × F) → List (Text × F)
  erase k [] = []
  erase k ((j, f) ∷ m) = if text_eq j k then m else (j, f) ∷ erase k m

  -- `Registry::_find`: the key at which `std::find_if` stops
  unfoldable pub find_in : Text → List (Text × F) → Option Text
  find_in path [] = none
  find_in path ((j, f) ∷ m) = if begins_with_path path j then some j else find_in path m

  -- The keys fall along the map.
  abbrev pub Below : Text → List (Text × F) → Type 0
  Below k [] = Unit
  Below k ((j, f) ∷ m) = (text_less j k ≡ true) × Below j m

  abbrev pub IsSorted : List (Text × F) → Type 0
  IsSorted [] = Unit
  IsSorted ((j, f) ∷ m) = Below j m
