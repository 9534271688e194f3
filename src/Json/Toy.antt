-- ===== src/Json/Toy.antt =====
-- A small JSON library for the tests: its values are trees, its texts are the dumps of a given list of
-- documents, with one byte for a number and none between the parts.
use rockets.Prelude.{
  ℕ, ◌+◌, ◌≡◌, refl, ap, Text, bytes, text_eq, text_eq_refl, Bool, true, false, Option, none, some,
  List, [], ◌∷◌, ◌++◌, if◌then◌else◌,
}
use rockets.Prelude.Assoc.{Eq, text_congr}
use rockets.Prelude.Int.{ℤ, pos, negsuc}
use rockets.Json.{
  JsonLib, JsonLaws, View, null, boolean, integer, unsigned, float, string, array, object,
  discarded, field,
}

mutual
  pub data Value : Type 0 where
    vnull vfloat vdiscarded : Value
    vboolean : Bool → Value
    vinteger : ℤ → Value
    vunsigned : ℕ → Value
    vstring : Text → Value
    varray : Items → Value
    vobject : Entries → Value

  pub data Items : Type 0 where
    nil : Items
    cons : Value → Items → Items

  pub data Entries : Type 0 where
    end : Entries
    entry : Text → Value → Entries → Entries

abbrev to_items : List Value → Items
to_items [] = nil
to_items (x ∷ xs) = cons x (to_items xs)

abbrev of_items : Items → List Value
of_items nil = []
of_items (cons x xs) = x ∷ of_items xs

abbrev to_entries : List (Text × Value) → Entries
to_entries [] = end
to_entries ((k, v) ∷ fs) = entry k v (to_entries fs)

abbrev of_entries : Entries → List (Text × Value)
of_entries end = []
of_entries (entry k v fs) = (k, v) ∷ of_entries fs

of_to_items : (xs : List Value) → of_items (to_items xs) ≡ xs
of_to_items [] = refl
of_to_items (x ∷ xs) = ap (λ t. x ∷ t) (of_to_items xs)

of_to_entries : (fs : List (Text × Value)) → of_entries (to_entries fs) ≡ fs
of_to_entries [] = refl
of_to_entries ((k, v) ∷ fs) = ap (λ t. (k, v) ∷ t) (of_to_entries fs)

abbrev view : Value → View Value
view vnull = null
view vfloat = float
view vdiscarded = discarded
view (vboolean b) = boolean b
view (vinteger z) = integer z
view (vunsigned n) = unsigned n
view (vstring s) = string s
view (varray xs) = array (of_items xs)
view (vobject fs) = object (of_entries fs)

abbrev make : View Value → Value
make null = vnull
make float = vfloat
make discarded = vdiscarded
make (boolean b) = vboolean b
make (integer z) = vinteger z
make (unsigned n) = vunsigned n
make (string s) = vstring s
make (array xs) = varray (to_items xs)
make (object fs) = vobject (to_entries fs)

abbrev digit : ℤ → Text
digit (pos n) = (48 + n) ∷ []
digit (negsuc n) = bytes "-" ++ (49 + n) ∷ []

abbrev mutual
  dump : Value → Text
  dump vnull = bytes "null"
  dump vfloat = bytes "0.5"
  dump vdiscarded = bytes "<discarded>"
  dump (vboolean true) = bytes "true"
  dump (vboolean false) = bytes "false"
  dump (vinteger z) = digit z
  dump (vunsigned n) = (48 + n) ∷ []
  dump (vstring s) = bytes "\"" ++ s ++ bytes "\""
  dump (varray xs) = bytes "[" ++ dump_items xs
  dump (vobject fs) = bytes "{" ++ dump_entries fs

  dump_items : Items → Text
  dump_items nil = bytes "]"
  dump_items (cons x xs) = dump x ++ bytes "," ++ dump_items xs

  dump_entries : Entries → Text
  dump_entries end = bytes "}"
  dump_entries (entry k v fs) =
      bytes "\"" ++ k ++ bytes "\":" ++ dump v ++ bytes "," ++ dump_entries fs

unfoldable pub read : List Value → Text → Option Value
unfolding text_eq
read [] s = none
read (v ∷ vs) s = if text_eq (dump v) s then some v else read vs s

abbrev pub toy : List Value → JsonLib
toy documents = record {
  Json = Value;
  view = view;
  make = make;
  parse = read documents;
  parse_what = λ s. bytes "parse error";
  dump = dump;
  dump_compact = dump;
  encodes = λ v. true;
}

pub toy-laws : (documents : List Value) → JsonLaws (toy documents)
toy-laws documents = record {
  view-null = refl;
  view-string = λ s. refl;
  view-unsigned = λ n. refl;
  view-integer = λ z. refl;
  view-array = λ xs. ap array (of_to_items xs);
  view-object = λ fs k. ap (field k) (of_to_entries fs);
  parse-encodes = λ s j h. refl;
}

-- Two values with one dump are one key.
instance abbrev pub value_eq : Eq Value
value_eq = record {
  beq = λ a b. text_eq (dump a) (dump b);
  beq_self = λ a. text_eq_refl (dump a);
  beq_congr = λ a b c. text_congr (dump a) (dump b) (dump c);
}
