-- ===== src/Http/FuncMap/Order.antt =====
-- The laws of the ordered map: what `lookup` sees after a write, that writes keep the order, and
-- that the first match in the order is the longest.
use rockets.Prelude.{
  ap, sym, ◌∙◌, is_some, ◌<◌, ◌≤◌, ◌≡◌, refl, inl, inr, Text, text_eq, text_less, is_prefix,
  text_eq_iff, text_eq_sound, true, false, none, some, List, [], ◌∷◌, length, arith, if◌then◌else◌,
  Bool-cases,
}
use rockets.Http.FuncMap.{lookup, set, erase, begins_with_path, find_in, Below, IsSorted}

-- The order on strings is transitive and total, and irreflexive.
pub text_less_trans :
    (r s t : Text) → text_less r s ≡ true → text_less s t ≡ true → text_less r t ≡ true
unfolding text_less
text_less_trans [] [] t h k = cc
text_less_trans [] (b ∷ s) [] h k = cc
text_less_trans [] (b ∷ s) (c ∷ t) h k = refl
text_less_trans (a ∷ r) [] t h k = cc
text_less_trans (a ∷ r) (b ∷ s) [] h k = cc
text_less_trans (a ∷ r) (b ∷ s) (c ∷ t) h k = ground (arith, text_less_trans r s t)

pub text_less_total :
    (s t : Text) → text_less s t ≡ false → text_eq s t ≡ false → text_less t s ≡ true
unfolding text_less text_eq
text_less_total [] [] h k = cc
text_less_total [] (b ∷ t) h k = cc
text_less_total (a ∷ s) [] h k = refl
text_less_total (a ∷ s) (b ∷ t) h k = ground (arith, text_less_total s t)

pub text_less_irrefl : (s : Text) → text_less s s ≡ false
unfolding text_less
text_less_irrefl [] = refl
text_less_irrefl (a ∷ s) = ground (arith, text_less_irrefl s)

-- Of two prefixes of one string the lesser is the shorter.
pub prefix_length :
    (s t p : Text)
    → is_prefix s p ≡ true
    → is_prefix t p ≡ true
    → text_less s t ≡ true
    → length s < length t
unfolding is_prefix text_less
prefix_length [] [] p h k l = cc
prefix_length [] (b ∷ t) p h k l = omega arith
prefix_length (a ∷ s) [] p h k l = cc
prefix_length (a ∷ s) (b ∷ t) [] h k l = cc
prefix_length (a ∷ s) (b ∷ t) (c ∷ p) h k l = ground (arith, prefix_length s t p)

-- Of two endpoints that match one path the lesser is no longer than the other.
pub match_length :
    (s t p : Text)
    → begins_with_path p s ≡ true
    → begins_with_path p t ≡ true
    → text_less s t ≡ true
    → length s ≤ length t
unfolding begins_with_path
match_length [] t p h k l = omega arith
match_length (a ∷ s) [] p h k l = unfold text_less in cc
match_length (a ∷ s) (b ∷ t) p h k l = omega (arith, prefix_length (a ∷ s) (b ∷ t) p h k l)

module _ {ℓ} {F : Type ℓ} where
  pub lookup-set :
      (k j : Text) (f : F) (m : List (Text × F))
      → lookup j (set k f m) ≡ (if text_eq k j then some f else lookup j m)
  unfolding lookup set
  lookup-set k j f [] = refl
  lookup-set k j f ((i, g) ∷ m) =
      ground (arith, text_eq_iff k j, text_eq_iff i k, text_eq_iff i j, lookup-set k j f m)

  Below-trans : (j k : Text) (m : List (Text × F)) → text_less j k ≡ true → Below j m → Below k m
  Below-trans j k [] h b = tt
  Below-trans j k ((i, g) ∷ m) h b = (text_less_trans i j k b.0 h, b.1)

  set-Below :
      (k j : Text) (f : F) (m : List (Text × F))
      → text_less k j ≡ true
      → Below j m
      → Below j (set k f m)
  unfolding set
  set-Below k j f [] h b = (h, tt)
  set-Below k j f ((i, g) ∷ m) h b = elim (Bool-cases (text_less i k)) [
    | inl less ↦ rw less (h, (less, b.1))
    | inr more ↦ rw more (elim (Bool-cases (text_eq i k)) [
      | inl same ↦ rw same (h, rw (← text_eq_sound i k same) b.1)
      | inr other ↦ rw other (b.0, set-Below k i f m (text_less_total i k more other) b.1)
    ])
  ]

  pub Below-IsSorted : (k : Text) (m : List (Text × F)) → Below k m → IsSorted m
  Below-IsSorted k [] b = tt
  Below-IsSorted k ((i, g) ∷ m) b = b.1

  -- A write keeps the order.
  pub set-IsSorted : (k : Text) (f : F) (m : List (Text × F)) → IsSorted m → IsSorted (set k f m)
  unfolding set
  set-IsSorted k f [] h = tt
  set-IsSorted k f ((i, g) ∷ m) h = elim (Bool-cases (text_less i k)) [
    | inl less ↦ rw less (less, h)
    | inr more ↦ rw more (elim (Bool-cases (text_eq i k)) [
      | inl same ↦ rw same (rw (← text_eq_sound i k same) h)
      | inr other ↦ rw other (set-Below k i f m (text_less_total i k more other) h)
    ])
  ]

  erase-Below : (k j : Text) (m : List (Text × F)) → Below j m → Below j (erase k m)
  unfolding erase
  erase-Below k j [] b = tt
  erase-Below k j ((i, g) ∷ m) b = ground (arith, erase-Below k i m b.1, Below-trans i j m b.0 b.1)

  -- So does an erasure.
  pub erase-IsSorted : (k : Text) (m : List (Text × F)) → IsSorted m → IsSorted (erase k m)
  unfolding erase
  erase-IsSorted k [] h = tt
  erase-IsSorted k ((i, g) ∷ []) h = ground arith
  erase-IsSorted k ((i, g) ∷ (j, f) ∷ m) h = ground (arith, erase-Below k i ((j, f) ∷ m) h)

  lookup-Below : (k : Text) (m : List (Text × F)) → Below k m → lookup k m ≡ none
  unfolding lookup
  lookup-Below k [] b = refl
  lookup-Below k ((i, g) ∷ m) b = elim (Bool-cases (text_eq i k)) [
    | inl same ↦ absurd (cc (text_less_irrefl k, text_eq_sound i k same, b.0))
    | inr other ↦ rw other (lookup-Below k m (Below-trans i k m b.0 b.1))
  ]

  -- In an ordered map no other entry of the key is left behind the one erased.
  pub lookup-erase :
      (k j : Text) (m : List (Text × F))
      → IsSorted m
      → lookup j (erase k m) ≡ (if text_eq k j then none else lookup j m)
  unfolding lookup erase
  lookup-erase k j [] h = ground arith
  lookup-erase k j ((i, g) ∷ m) h = elim (Bool-cases (text_eq i k)) [
    | inl same ↦
        ground (arith, text_eq_iff i k, text_eq_iff k j, text_eq_iff i j, lookup-Below i m h)
    | inr other ↦ ground (
      arith,
      text_eq_iff i k,
      text_eq_iff k j,
      text_eq_iff i j,
      lookup-erase k j m (Below-IsSorted i m h),
    )
  ]

  -- What `find_in` stops at is a registered endpoint that matches the path.
  pub find_in_sound :
      (path j : Text) (m : List (Text × F))
      → find_in path m ≡ some j
      → (begins_with_path path j ≡ true) × (is_some (lookup j m) ≡ true)
  unfolding find_in lookup
  find_in_sound path j [] h = cc
  find_in_sound path j ((i, g) ∷ m) h = ground (arith, text_eq_iff i j, find_in_sound path j m)

  pub find_in-none :
      (path k : Text) (m : List (Text × F))
      → find_in path m ≡ none
      → is_some (lookup k m) ≡ true
      → begins_with_path path k ≡ false
  unfolding find_in lookup
  find_in-none path k [] h e = cc
  find_in-none path k ((i, g) ∷ m) h e = ground (arith, text_eq_iff i k, find_in-none path k m)

  lookup_less :
      (k i : Text) (m : List (Text × F))
      → Below i m
      → is_some (lookup k m) ≡ true
      → text_less k i ≡ true
  unfolding lookup
  lookup_less k i [] b e = cc
  lookup_less k i ((j, g) ∷ m) b e = elim (Bool-cases (text_eq j k)) [
    | inl same ↦ rw (← text_eq_sound j k same) b.0
    | inr other ↦ text_less_trans k j i (lookup_less k j m b.1 (rw other at e)) b.0
  ]

  -- In an ordered map no registered endpoint that matches is longer.
  pub find_in-longest :
      (path j k : Text) (m : List (Text × F))
      → IsSorted m
      → find_in path m ≡ some j
      → is_some (lookup k m) ≡ true
      → begins_with_path path k ≡ true
      → length k ≤ length j
  unfolding find_in lookup
  find_in-longest path j k [] s h e b = cc
  find_in-longest path j k ((i, g) ∷ m) s h e b = elim (Bool-cases (text_eq i k)) [
    | inl same ↦
        let i≡k : i ≡ k = text_eq_sound i k same in
        let i≡j : i ≡ j = ground arith in omega (arith, ap (λ t. length t) (sym i≡k ∙ i≡j))
    | inr other ↦ elim (Bool-cases (begins_with_path path i)) [
      | inl hit ↦
          let i≡j : i ≡ j = ground arith in
          rw (← i≡j) (match_length k i path b hit (lookup_less k i m s (rw other at e)))
      | inr miss ↦
          find_in-longest path j k m (Below-IsSorted i m s) (rw miss at h) (rw other at e) b
    ]
  ]
