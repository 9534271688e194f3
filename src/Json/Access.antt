-- ===== src/Json/Access.antt =====
-- The tests and accessors of a JSON value, and what they give on a value that was just built.
use rockets.Prelude.{ℕ, ◌≡◌, refl, Text, Bool, true, false, Option, none, some, List, is_some}
use rockets.Prelude.Result.{Result, ok, throw, type_error}
use rockets.Json.{
  JsonLib, JsonLaws, View, null, integer, unsigned, float, string, array, object, field, SameFields,
}

module _ {J : Type 0} where
  abbrev pub is_null : View J → Bool
  is_null null = true
  is_null _ = false

  abbrev pub is_object : View J → Bool
  is_object (object fs) = true
  is_object _ = false

  abbrev pub is_array : View J → Bool
  is_array (array xs) = true
  is_array _ = false

  abbrev pub is_string : View J → Bool
  is_string (string s) = true
  is_string _ = false

  abbrev pub is_number_unsigned : View J → Bool
  is_number_unsigned (unsigned n) = true
  is_number_unsigned _ = false

  abbrev pub is_number_integer : View J → Bool
  is_number_integer (integer z) = true
  is_number_integer (unsigned n) = true
  is_number_integer _ = false

  abbrev pub is_number : View J → Bool
  is_number float = true
  is_number (integer z) = true
  is_number (unsigned n) = true
  is_number _ = false

  -- `find(k)`, and `count(k)` and `operator[](k)` with it: none on what is no object
  abbrev pub member : Text → View J → Option J
  member k (object fs) = field k fs
  member k _ = none

  -- `get<std::string>()`
  abbrev pub get_string : View J → Result Text
  get_string (string s) = ok s
  get_string _ = throw type_error

  member_of_SameFields :
      (k : Text) (v : View J) (fs : List (Text × J)) → SameFields v fs → member k v ≡ field k fs
  member_of_SameFields k (object gs) fs h = h k
  member_of_SameFields k null fs h = absurd h
  member_of_SameFields k _ fs h = absurd h

  is_object_of_SameFields :
      (v : View J) (fs : List (Text × J)) → SameFields v fs → is_object v ≡ true
  is_object_of_SameFields (object gs) fs h = refl
  is_object_of_SameFields null fs h = absurd h
  is_object_of_SameFields _ fs h = absurd h

module _ (lib : JsonLib) where
  open lib use {Json, view, make}

  abbrev pub make_null : Json
  make_null = make null

  abbrev pub text : Text → Json
  text s = make (string s)

  abbrev pub number : ℕ → Json
  number n = make (unsigned n)

  -- `object.count(k)`
  abbrev pub count : Json → Text → Bool
  count j k = is_some (member k (view j))

  -- A test of `object[k]`, where `object.count(k)` was tested first.
  abbrev pub test : Json → Text → (View Json → Bool) → Bool
  test j k p = elim (member k (view j)) [ none ↦ false | some v ↦ p (view v) ]

module _ (lib : JsonLib) (laws : JsonLaws lib) where
  open lib use {Json, view, make}

  pub member-object :
      (k : Text) (fs : List (Text × Json)) → member k (view (make (object fs))) ≡ field k fs
  member-object k fs = member_of_SameFields k (view (make (object fs))) fs (laws.view-object fs)

  pub is_object-object : (fs : List (Text × Json)) → is_object (view (make (object fs))) ≡ true
  is_object-object fs = is_object_of_SameFields (view (make (object fs))) fs (laws.view-object fs)
