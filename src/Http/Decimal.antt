-- ===== src/Http/Decimal.antt =====
-- `std::to_string` of a `size_t`, by which a client writes the length of a body.
pub mod RoundTrip
use rockets.Prelude.{
  ℕ, zero, suc, ◌+◌, ◌/◌, ◌%◌, Text, Bool, List, [], ◌∷◌, ◌++◌, ltb, if◌then◌else◌,
}

-- The digits of a number, for a fuel above it.
unfoldable pub digits : ℕ → ℕ → Text
digits zero n = []
digits (suc fuel) n =
    let more = digits fuel (n / 10) ++ (48 + n % 10) ∷ [] in
    if ltb n 10 then (48 + n) ∷ [] else more

unfoldable pub to_string : ℕ → Text
unfolding digits
to_string n = digits (n + 1) n
