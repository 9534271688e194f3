-- ===== src/ClientContext/NoProxy.antt =====
-- Which hosts the list of the environment names.
use rockets.Prelude.{
  ℕ, ◌+◌, ◌-◌, ◌≡◌, ◌≢◌, ◌↔◌, refl, sym, ap, ◌∙◌, ◌⊎◌, inl, inr, Text, bytes, text_eq, text_eq_iff,
  is_empty, Bool, true, false, not, ◌||◌, some, List, [], ◌∷◌, ◌++◌, length, length-append, drop,
  drop-length-append, take, take-append-drop, ◌==◌, All, arith, Bool-cases,
}
use mathlib.Core.List.{append_assoc, append-nil}
use rockets.Http.Registry.Allowed.{join}
use rockets.ClientContext.{has_ending, get_lines, matches, any_matches, is_no_proxy_host}

has_ending-append : (s t : Text) → has_ending (s ++ t) t ≡ true
unfolding has_ending
has_ending-append s t =
    let e : length s + length t - length t ≡ length s = omega arith in
    rw (length-append s t) (rw (e, drop-length-append s t) (ground (arith, text_eq_iff t t)))

-- An ending is what is left of a text behind some start of it.
has_ending_sound : (s t : Text) → has_ending s t ≡ true → (r : Text) × (s ≡ r ++ t)
unfolding has_ending
has_ending_sound s t h =
    let same : drop (length s - length t) s ≡ t =
      ground (arith, text_eq_iff (drop (length s - length t) s) t) in
    (
      take (length s - length t) s,
      sym (take-append-drop (length s - length t) s)
          ∙ ap (λ u. take (length s - length t) s ++ u) same,
    )

-- An entry of the list matches a host that it names, and with a star in front every host that ends
-- in what follows the star.
abbrev pub Matches : Text → Text → Type 0
Matches hostname host =
    ((host ≢ []) × (host ≡ hostname))
    ⊎ ((suffix : Text) × (start : Text) × (host ≡ b'*' ∷ suffix) × (hostname ≡ start ++ suffix))

abbrev pub AnyMatches : Text → List Text → Type 0
AnyMatches hostname [] = ⊥
AnyMatches hostname (host ∷ hosts) = Matches hostname host ⊎ AnyMatches hostname hosts

matches_sound : (hostname host : Text) → matches hostname host ≡ true → Matches hostname host
unfolding matches
matches_sound hostname [] h = absurd (ground arith)
matches_sound hostname (c ∷ host) h = elim (Bool-cases (text_eq (c ∷ host) hostname)) [
  | inl same ↦ inl (λ e. cc, (text_eq_iff (c ∷ host) hostname).0 same)
  | inr other ↦
      let star : c ≡ b'*' = ground arith in
      let ends : has_ending hostname host ≡ true = ground arith in
      let (start, e) = has_ending_sound hostname host ends in
      inr (host, start, ap (λ d. d ∷ host) star, e)
]

matches_complete : (hostname host : Text) → Matches hostname host → matches hostname host ≡ true
unfolding matches
matches_complete hostname [] (inl (some_host, e)) = absurd (some_host refl)
matches_complete hostname [] (inr (suffix, start, e, f)) = absurd (ground arith)
matches_complete hostname (c ∷ host) (inl (some_host, e)) =
    ground (arith, text_eq_iff (c ∷ host) hostname)
matches_complete hostname (c ∷ host) (inr (suffix, start, e, f)) =
    let star : c ≡ b'*' = ground arith in
    let same : host ≡ suffix = ground arith in
    let ends : has_ending hostname host ≡ true = rw (f, same) (has_ending-append start suffix) in
    ground arith

any_matches_sound :
    (hostname : Text) (hosts : List Text)
    → any_matches hostname hosts ≡ true
    → AnyMatches hostname hosts
unfolding any_matches
any_matches_sound hostname [] h = absurd (ground arith)
any_matches_sound hostname (host ∷ hosts) h = elim (Bool-cases (matches hostname host)) [
  | inl this ↦ inl (matches_sound hostname host this)
  | inr other ↦ inr (any_matches_sound hostname hosts (ground arith))
]

any_matches_complete :
    (hostname : Text) (hosts : List Text)
    → AnyMatches hostname hosts
    → any_matches hostname hosts ≡ true
unfolding any_matches
any_matches_complete hostname [] h = absurd h
any_matches_complete hostname (host ∷ hosts) (inl this) =
    rw (matches_complete hostname host this) refl
any_matches_complete hostname (host ∷ hosts) (inr later) =
    ground (arith, any_matches_complete hostname hosts later)

abbrev pub Lacks : ℕ → Text → Type 0
Lacks sep s = All (λ c. (c == sep) ≡ false) s

get_lines-append :
    (sep : ℕ) (s rest line : Text) (begun : Bool)
    → Lacks sep s
    → get_lines sep (s ++ rest) line begun
      ≡ get_lines sep rest (line ++ s) (begun || not (is_empty s))
unfolding get_lines
get_lines-append sep [] rest line false h = rw (append-nil line) refl
get_lines-append sep [] rest line true h = rw (append-nil line) refl
get_lines-append sep (c ∷ s) rest line begun h =
    rw (h.0, get_lines)
      (get_lines-append sep s rest (line ++ c ∷ []) true h.1
        ∙ rw (append_assoc line (c ∷ []) s) (ground arith))

get_lines-sep :
    (sep : ℕ) (rest line : Text) (begun : Bool)
    → get_lines sep (sep ∷ rest) line begun ≡ line ∷ get_lines sep rest [] false
unfolding get_lines
get_lines-sep sep rest line begun = ground arith

-- The lines of a list with separators are its entries, but for an empty one at the end, which matches
-- no host.
any_matches-join :
    (hostname : Text) (sep : ℕ) (hosts : List Text)
    → All (Lacks sep) hosts
    → any_matches hostname (get_lines sep (join (sep ∷ []) hosts) [] false)
      ≡ any_matches hostname hosts
any_matches-join hostname sep [] h = unfold get_lines in refl
any_matches-join hostname sep (host ∷ []) h =
    ap (λ t. any_matches hostname (get_lines sep t [] false)) (sym (append-nil host))
    ∙ rw (get_lines-append sep host [] [] false h.0) (last host)
  where
    last :
        (host : Text)
        → any_matches hostname (get_lines sep [] host (not (is_empty host)))
          ≡ any_matches hostname (host ∷ [])
    last [] = unfold get_lines any_matches matches in refl
    last (c ∷ host) = unfold get_lines any_matches in refl
any_matches-join hostname sep (host ∷ other ∷ hosts) h =
    rw
      (
        append_assoc host (sep ∷ []) (join (sep ∷ []) (other ∷ hosts)),
        get_lines-append sep host (sep ∷ join (sep ∷ []) (other ∷ hosts)) [] false h.0,
        get_lines-sep sep (join (sep ∷ []) (other ∷ hosts)) host (not (is_empty host)),
      )
      (one _ (any_matches-join hostname sep (other ∷ hosts) h.1))
  where
    one :
        (xs : List Text)
        → any_matches hostname xs ≡ any_matches hostname (other ∷ hosts)
        → any_matches hostname (host ∷ xs) ≡ any_matches hostname (host ∷ other ∷ hosts)
    one xs e = unfold any_matches in ground arith

-- If the environment has the list of some hosts, none with a comma in it and with commas between
-- them, the proxy is bypassed for exactly the hosts that an entry names: itself, or, with a star in
-- front, by its ending.
pub is_no_proxy_host-join :
    (hosts : List Text) (hostname : Text)
    → All (Lacks b',') hosts
    → (is_no_proxy_host (some (join (bytes ",") hosts)) hostname ≡ true) ↔ AnyMatches hostname hosts
unfolding is_no_proxy_host
is_no_proxy_host-join hosts hostname h = (
  λ e. any_matches_sound hostname hosts (sym (any_matches-join hostname b',' hosts h) ∙ e),
  λ m. any_matches-join hostname b',' hosts h ∙ any_matches_complete hostname hosts m,
)
