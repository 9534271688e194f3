-- ===== src/Http/Decimal/RoundTrip.antt =====
-- A length that a client writes is the length that a server reads, below 2 ^ 31.
use rockets.Prelude.{
  ℕ, zero, suc, ◌+◌, ◌-◌, ◌*◌, ◌/◌, ◌%◌, ◌^◌, ◌≤◌, ◌<◌, ◌≡◌, refl, inl, inr, Text, false, none,
  some, [], ◌∷◌, ◌++◌, ltb, is_empty, All, All-append, arith, if◌then◌else◌, Bool-cases,
}
use rockets.Prelude.Int.{pos}
use rockets.Http.Lws.{Lws, Token}
use rockets.Http.Channel.{
  stoi, stoi_sign, skip_blanks, read_number, read_digits, read_content_length, read_header,
}
use rockets.Http.Decimal.{digits, to_string}

abbrev IsDigit : ℕ → Type 0
IsDigit c = (48 ≤ c) × (c ≤ 57)

digits-IsDigit : (fuel n : ℕ) → All IsDigit (digits fuel n)
unfolding digits
digits-IsDigit zero n = tt
digits-IsDigit (suc fuel) n = elim (Bool-cases (ltb n 10)) [
  | inl last ↦ rw last ((omega arith, ground arith), tt)
  | inr more ↦ rw more (
      All-append IsDigit (digits fuel (n / 10)) ((48 + n % 10) ∷ []) (digits-IsDigit fuel (n / 10))
        ((omega arith, omega arith), tt))
]

-- The value of a text of digits, read on from `n`.
value : ℕ → Text → ℕ
value n [] = n
value n (c ∷ s) = value (n * 10 + (c - 48)) s

value-append : (n : ℕ) (s t : Text) → value n (s ++ t) ≡ value (value n s) t
unfolding value
value-append n [] t = refl
value-append n (c ∷ s) t = value-append (n * 10 + (c - 48)) s t

value-digits : (fuel n : ℕ) → n < fuel → value 0 (digits fuel n) ≡ n
unfolding digits value
value-digits zero n h = absurd (omega arith)
value-digits (suc fuel) n h = elim (Bool-cases (ltb n 10)) [
  | inl last ↦ rw last (omega arith)
  | inr more ↦
      rw (more, value-append 0 (digits fuel (n / 10)) ((48 + n % 10) ∷ []))
        (ground (arith, value-digits fuel (n / 10)))
]

read_digits-value : (n : ℕ) (s : Text) → All IsDigit s → read_digits n s ≡ value n s
unfolding read_digits value
read_digits-value n [] h = refl
read_digits-value n (c ∷ s) h = ground (arith, read_digits-value (n * 10 + (c - 48)) s h.1)

-- A text of digits that is not empty is read as its value, where that is an `int`.
stoi-value :
    (s : Text)
    → All IsDigit s
    → is_empty s ≡ false
    → stoi s ≡ (if ltb (value 0 s) (2 ^ 31) then some (pos (value 0 s)) else none)
unfolding stoi stoi_sign skip_blanks read_number
stoi-value [] h e = absurd (ground arith)
stoi-value (c ∷ s) h e = ground (arith, read_digits-value 0 (c ∷ s) h)

append_nonempty : (s : Text) (c : ℕ) → is_empty (s ++ c ∷ []) ≡ false
append_nonempty [] c = refl
append_nonempty (x ∷ s) c = refl

to_string_nonempty : (n : ℕ) → is_empty (to_string n) ≡ false
unfolding to_string digits
to_string_nonempty n = ground (arith, append_nonempty (digits n (n / 10)) (48 + n % 10))

stoi-to_string : (n : ℕ) → stoi (to_string n) ≡ (if ltb n (2 ^ 31) then some (pos n) else none)
unfolding to_string
stoi-to_string n =
    rw (stoi-value (to_string n) (digits-IsDigit (n + 1) n) (to_string_nonempty n))
      (rw (value-digits (n + 1) n (omega arith)) refl)

-- A server reads the length that a client wrote of a body of fewer than 2 ^ 31 bytes. A length from
-- 2 ^ 31 on it reads as 0, so that the request is taken to have no body.
pub read_content_length-to_string :
    (lws : Lws) (wsi : lws.Wsi) (n : ℕ)
    → read_header lws wsi Token.content_length ≡ to_string n
    → read_content_length lws wsi ≡ (if ltb n (2 ^ 31) then n else 0)
unfolding read_content_length
read_content_length-to_string lws wsi n sent =
    rw (sent, to_string_nonempty n, stoi-to_string n) (ground arith)
