-- ===== src/Server/Reserved.antt =====
-- The endpoint "registry", which lists the endpoints, is never an application's.
use rockets.Prelude.{
  ◌≡◌, ◌≢◌, refl, sym, ◌∙◌, ◌⊎◌, inl, inr, Text, bytes, text_eq, Bool, true, false, ◌&&◌, arith,
  if◌then◌else◌, Bool-cases,
}
use rockets.Prelude.Result.{Result, ok}
use rockets.Http.Types.{Method, get, post, all}
use rockets.Http.Registry.{Registry, IsValid, add, remove, contains, get_function, methods_at}
use rockets.Http.Registry.Laws.{get_function-add}
use rockets.Http.Registry.Removal.{get_function-remove}

Method-cases : (a b : Method) → (a ≡ b) ⊎ (a ≢ b)
Method-cases get b = ground arith
Method-cases post b = ground arith
Method-cases _ b = ground arith

module _ {F : Type 0} where
  -- No method has a function for "registry".
  abbrev pub IsReserved : Registry F → Type 0
  IsReserved r = (method : Method) (f : F) → get_function r method (bytes "registry") ≢ ok f

  contains-get_function :
      (r : Registry F) (method : Method) (endpoint : Text) (f : F)
      → get_function r method endpoint ≡ ok f
      → (method ≢ all) × (contains r method endpoint ≡ ok true)
  unfolding get_function contains methods_at
  contains-get_function r all endpoint f h = absurd (ground arith)
  contains-get_function r _ endpoint f h = (ground arith, ground arith)

  kept_here :
      (b : Bool) (new : Result F) (endpoint : Text) (func : F) (old : Result F)
      → text_eq endpoint (bytes "registry") ≡ false
      → new ≡ (if b && text_eq endpoint (bytes "registry") then ok func else old)
      → new ≡ old
  kept_here true new endpoint func old ne h = h ∙ rw ne refl
  kept_here false new endpoint func old ne h = h

  pub add-IsReserved :
      (r r' : Registry F) (method : Method) (endpoint : Text) (func : F) (b : Bool)
      → text_eq endpoint (bytes "registry") ≡ false
      → add r method endpoint func ≡ ok (b, r')
      → IsReserved r
      → IsReserved r'
  add-IsReserved r r' method endpoint func b ne h v k f e =
      let (_, here, others) = get_function-add r r' method endpoint func b h in
      elim (Method-cases k method) [
        | inl same ↦
            let kept : get_function r' k (bytes "registry") ≡ get_function r k (bytes "registry") =
              rw same (kept_here b _ endpoint func _ ne (here (bytes "registry"))) in
            v k f (sym kept ∙ e)
        | inr other ↦ v k f (sym (others k (bytes "registry") other) ∙ e)
      ]

  pub remove-IsReserved :
      (r : Registry F) (endpoint : Text)
      → IsValid r
      → IsReserved r
      → IsReserved (remove r endpoint).1
  remove-IsReserved r endpoint v reserved method f e =
      let (gone, kept, _) = get_function-remove r endpoint v in
      let (some_method, there) = contains-get_function _ method (bytes "registry") f e in
      elim (Bool-cases (text_eq endpoint (bytes "registry"))) [
        | inl same ↦ ground (arith, gone method (bytes "registry") some_method)
        | inr other ↦ reserved method f (sym (kept method (bytes "registry") other) ∙ e)
      ]
