-- ===== src/Http/Registry/Search.antt =====
-- Which endpoint `Registry::findEndpoint` finds.
use rockets.Prelude.{
  ◌≤◌, ◌≡◌, refl, ◌⊎◌, inl, inr, Text, bytes, Bool, true, false, none, List, [], is_some, length,
  arith, if◌then◌else◌, Bool-cases, Option-cases,
}
use rockets.Prelude.Result.{ok}
use rockets.Http.Types.{Method}
use rockets.Http.FuncMap
use rockets.Http.FuncMap.{IsSorted, begins_with_path}
use rockets.Http.FuncMap.Order.{find_in_sound, find_in-longest, find_in-none}
use rockets.Http.Registry.{Registry, SearchResult, methods_at, contains, find_endpoint, IsValid}
use rockets.Http.Registry.Laws.{methods_at-IsSorted, methods_at-cases}

module _ {F : Type 0} where
  registered :
      (r : Registry F) (method : Method) (k : Text) (m : List (Text × F))
      → methods_at r method ≡ ok m
      → contains r method k ≡ ok true
      → is_some (FuncMap.lookup k m) ≡ true
  unfolding contains
  registered r method k m e c = ground arith

  contains-lookup :
      (r : Registry F) (method : Method) (k : Text) (m : List (Text × F))
      → methods_at r method ≡ ok m
      → is_some (FuncMap.lookup k m) ≡ true
      → contains r method k ≡ ok true
  unfolding contains
  contains-lookup r method k m e c = ground arith

  root_result :
      (r : Registry F) (method : Method) (path : Text) (result : SearchResult) (m : List (Text × F))
      → methods_at r method ≡ ok m
      → FuncMap.find_in path m ≡ none
      → find_endpoint r method path ≡ ok result
      → (contains r method (bytes "/") ≡ ok result.found)
        × (result.endpoint ≡ (if result.found then bytes "/" else []))
  unfolding find_endpoint contains
  root_result r method path result m e miss h = ground arith

  -- In a valid registry, for a method other than `ALL`, `find_endpoint` finds the longest registered
  -- endpoint that begins the path; where none does it finds "/" if that is registered, and nothing
  -- otherwise. Of an empty endpoint only the empty path counts as begun.
  pub find_endpoint-longest :
      (r : Registry F) (method : Method) (path : Text) (result : SearchResult)
      → IsValid r
      → find_endpoint r method path ≡ ok result
      → ((result.found ≡ true)
          × (contains r method result.endpoint ≡ ok true)
          × (begins_with_path path result.endpoint ≡ true)
          × ((other : Text)
              → contains r method other ≡ ok true
              → begins_with_path path other ≡ true
              → length other ≤ length result.endpoint))
        ⊎ ((contains r method (bytes "/") ≡ ok result.found)
            × (result.endpoint ≡ (if result.found then bytes "/" else []))
            × ((other : Text)
                → contains r method other ≡ ok true
                → begins_with_path path other ≡ false))
  unfolding find_endpoint
  find_endpoint-longest r method path result v h = elim (methods_at-cases r method) [
    | inl (_, e) ↦ absurd (ground arith)
    | inr (m, e) ↦
        let is_registered : (k : Text)
            → contains r method k ≡ ok true
            → is_some (FuncMap.lookup k m) ≡ true =
          λ k c. registered r method k m e c in
        elim (Option-cases (FuncMap.find_in path m)) [
          | inr (k, found) ↦
              let hit : result ≡ record { found = true; endpoint = k } = ground arith in
              let (begins, there) = find_in_sound path k m found in
              rw hit (
                inl (
                  refl,
                  contains-lookup r method k m e there,
                  begins,
                  λ other c b.
                      find_in-longest path k other m (methods_at-IsSorted r method m v e) found
                        (is_registered other c) b,
                ))
          | inl miss ↦
              let root = root_result r method path result m e miss h in
              inr
                (root.0, root.1, λ other c. find_in-none path other m miss (is_registered other c))
        ]
  ]

  -- The search returns wherever the method has a map.
  pub find_endpoint-total :
      (r : Registry F) (method : Method) (path endpoint : Text) (b : Bool)
      → contains r method endpoint ≡ ok b
      → (result : SearchResult) × (find_endpoint r method path ≡ ok result)
  unfolding find_endpoint contains
  find_endpoint-total r method path endpoint b h = elim (methods_at-cases r method) [
    | inl (_, e) ↦ absurd (ground arith)
    | inr (m, e) ↦ elim (Option-cases (FuncMap.find_in path m)) [
      | inr (k, found) ↦ (record { found = true; endpoint = k }, ground arith)
      | inl miss ↦ elim (Bool-cases (is_some (FuncMap.lookup (bytes "/") m))) [
        | inl root ↦ (record { found = true; endpoint = bytes "/" }, ground arith)
        | inr no_root ↦ (record { found = false; endpoint = [] }, ground arith)
      ]
    ]
  ]
