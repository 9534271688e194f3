-- ===== src/Json.antt =====
-- The program's use of the JSON library that it carries as rockets/json.hpp: an interface, which the
-- JSON-RPC and the registry modules take as a parameter. A JSON value is seen through `view`, which
-- is the library's `type()` with its accessors, and built by `make`.
pub mod Access
pub mod Toy
use rockets.Prelude.{
  ℕ, ◌≡◌, ◌↔◌, Text, Bool, true, false, Option, none, some, List, [], ◌∷◌, text_eq, if◌then◌else◌,
}
use rockets.Prelude.Int.{ℤ}

-- The types of a value (`value_t`). The numbers 0, 1, 2, … are stored as `unsigned`, negative ones as
-- `integer`; a failed parse that may not throw gives `discarded`.
pub data View (J : Type 0) : Type 0 where
  null : View J
  boolean : Bool → View J
  integer : ℤ → View J
  unsigned : ℕ → View J
  float : View J
  string : Text → View J
  array : List J → View J
  object : List (Text × J) → View J
  discarded : View J

-- The fields of an object by key; the first of two entries with one key counts.
unfoldable pub field {ℓ} : {J : Type ℓ} → Text → List (Text × J) → Option J
field k [] = none
field k ((j, v) ∷ fs) = if text_eq j k then some v else field k fs

pub record JsonLib : Type 1 where
  pub Json : Type 0
  pub view : Json → View Json
  pub make : View Json → Json
  -- `json::parse`, which throws a `parse_error` whose `what()` is `parse_what`
  pub parse : Text → Option Json
  pub parse_what : Text → Text
  -- `dump(4)` and `dump()`
  pub dump : Json → Text
  pub dump_compact : Json → Text
  -- Whether `dump` gives a text: it throws a `type_error` for a value with a string that is no UTF-8.
  pub encodes : Json → Bool

-- The fields of the object that the library makes of a list of entries.
abbrev pub SameFields : {J : Type 0} → View J → List (Text × J) → Type 0
SameFields (object gs) fs = (k : Text) → field k gs ≡ field k fs
SameFields _ fs = ⊥

-- What the library documents and the program relies on.
pub record JsonLaws (lib : JsonLib) : Type 0 where
  pub view-null : lib.view (lib.make null) ≡ null
  pub view-string : (s : Text) → lib.view (lib.make (string s)) ≡ string s
  pub view-unsigned : (n : ℕ) → lib.view (lib.make (unsigned n)) ≡ unsigned n
  pub view-integer : (z : ℤ) → lib.view (lib.make (integer z)) ≡ integer z
  pub view-array : (xs : List lib.Json) → lib.view (lib.make (array xs)) ≡ array xs
  pub view-object : (fs : List (Text × lib.Json)) → SameFields (lib.view (lib.make (object fs))) fs
  -- The parser takes only texts in UTF-8.
  pub parse-encodes : (s : Text) (j : lib.Json) → lib.parse s ≡ some j → lib.encodes j ≡ true
