-- ===== src/Http/Registry/Laws.antt =====
-- What the operations of the registry do, over all methods and endpoints.
use rockets.Prelude.{
  ◌≡◌, ◌≢◌, refl, ◌⊎◌, inl, inr, Text, text_eq, Bool, not, ◌&&◌, List, is_some, arith,
  if◌then◌else◌, Bool-cases,
}
use rockets.Prelude.Result.{ok, throw, undefined_behaviour, >>=-eq-ok}
use rockets.Http.Types.{Method, get, post, put, patch, delete, options, all}
use rockets.Http.FuncMap
use rockets.Http.FuncMap.{IsSorted, begins_with_path}
use rockets.Http.FuncMap.Order.{lookup-set, set-IsSorted, erase-IsSorted}
use rockets.Http.Registry.{
  Registry, methods_at, store_at, add, remove, contains, get_function, IsValid,
}

module _ {F : Type 0} where
  pub methods_at-IsSorted :
      (r : Registry F) (method : Method) (m : List (Text × F))
      → IsValid r
      → methods_at r method ≡ ok m
      → IsSorted m
  unfolding methods_at
  methods_at-IsSorted r get m v h = ground arith
  methods_at-IsSorted r all m v h = ground arith
  methods_at-IsSorted r _ m v h = ground arith

  pub remove-IsValid :
      (r : Registry F) (endpoint : Text) → IsValid r → IsValid (remove r endpoint).1
  unfolding remove
  remove-IsValid r endpoint v = record {
    gets = erase-IsSorted endpoint r.gets v.gets;
    posts = erase-IsSorted endpoint r.posts v.posts;
    puts = erase-IsSorted endpoint r.puts v.puts;
    patches = erase-IsSorted endpoint r.patches v.patches;
    deletes = erase-IsSorted endpoint r.deletes v.deletes;
    optionss = erase-IsSorted endpoint r.optionss v.optionss;
  }

  store_at-IsValid :
      (r : Registry F) (method : Method) (m : List (Text × F))
      → IsValid r
      → IsSorted m
      → IsValid (store_at r method m)
  unfolding store_at
  store_at-IsValid r get m v h = record {
    gets = h;
    posts = v.posts;
    puts = v.puts;
    patches = v.patches;
    deletes = v.deletes;
    optionss = v.optionss;
  }
  store_at-IsValid r post m v h = record {
    gets = v.gets;
    posts = h;
    puts = v.puts;
    patches = v.patches;
    deletes = v.deletes;
    optionss = v.optionss;
  }
  store_at-IsValid r put m v h = record {
    gets = v.gets;
    posts = v.posts;
    puts = h;
    patches = v.patches;
    deletes = v.deletes;
    optionss = v.optionss;
  }
  store_at-IsValid r patch m v h = record {
    gets = v.gets;
    posts = v.posts;
    puts = v.puts;
    patches = h;
    deletes = v.deletes;
    optionss = v.optionss;
  }
  store_at-IsValid r delete m v h = record {
    gets = v.gets;
    posts = v.posts;
    puts = v.puts;
    patches = v.patches;
    deletes = h;
    optionss = v.optionss;
  }
  store_at-IsValid r options m v h = record {
    gets = v.gets;
    posts = v.posts;
    puts = v.puts;
    patches = v.patches;
    deletes = v.deletes;
    optionss = h;
  }
  store_at-IsValid r all m v h = v

  -- A call of `add` that returns looked at a map of the array.
  abbrev Added : Registry F → Registry F → Method → Text → F → Bool → List (Text × F) → Type 0
  Added r r' method endpoint func b m =
      (methods_at r method ≡ ok m)
      × (b ≡ not (is_some (FuncMap.lookup endpoint m)))
      × (r' ≡ (
          if is_some (FuncMap.lookup endpoint m)
          then r
          else store_at r method (FuncMap.set endpoint func m)))

  add_cases :
      (r r' : Registry F) (method : Method) (endpoint : Text) (func : F) (b : Bool)
      → add r method endpoint func ≡ ok (b, r')
      → (m : List (Text × F)) × Added r r' method endpoint func b m
  unfolding add
  add_cases r r' method endpoint func b h =
      let (m, e, k) = >>=-eq-ok (methods_at r method) _ h in (m, (e, ground arith, ground arith))

  pub add-IsValid :
      (r r' : Registry F) (method : Method) (endpoint : Text) (func : F) (b : Bool)
      → IsValid r
      → add r method endpoint func ≡ ok (b, r')
      → IsValid r'
  add-IsValid r r' method endpoint func b v h =
      let (m, (e, _, k)) = add_cases r r' method endpoint func b h in
      rw k (elim (Bool-cases (is_some (FuncMap.lookup endpoint m))) [
        | inl there ↦ rw there v
        | inr new ↦ rw new (
            store_at-IsValid r method _ v
              (set-IsSorted endpoint func m (methods_at-IsSorted r method m v e)))
      ])

  methods_at-store_at :
      (r : Registry F) (method : Method) (m m' : List (Text × F))
      → methods_at r method ≡ ok m
      → methods_at (store_at r method m') method ≡ ok m'
  unfolding methods_at store_at
  methods_at-store_at r get m m' h = refl
  methods_at-store_at r all m m' h = ground arith
  methods_at-store_at r _ m m' h = refl

  methods_at-store_at_ne :
      (r : Registry F) (method other : Method) (m : List (Text × F))
      → other ≢ method
      → methods_at (store_at r method m) other ≡ methods_at r other
  unfolding methods_at store_at
  methods_at-store_at_ne r method other m h = ground arith

  get_function-store_at :
      (r : Registry F) (method : Method) (endpoint other : Text) (func : F) (m : List (Text × F))
      → methods_at r method ≡ ok m
      → get_function (store_at r method (FuncMap.set endpoint func m)) method other
        ≡ (if text_eq endpoint other then ok func else get_function r method other)
  unfolding get_function
  get_function-store_at r method endpoint other func m at = ground (
    arith,
    methods_at-store_at r method m (FuncMap.set endpoint func m),
    lookup-set endpoint other func m,
  )

  get_function-store_at_ne :
      (r : Registry F) (method k : Method) (other : Text) (m : List (Text × F))
      → k ≢ method
      → get_function (store_at r method m) k other ≡ get_function r k other
  unfolding get_function
  get_function-store_at_ne r method k other m ne = rw (methods_at-store_at_ne r method k m ne)

  contains-Added :
      (r r' : Registry F) (method : Method) (endpoint : Text) (func : F) (b : Bool)
      (m : List (Text × F))
      → Added r r' method endpoint func b m
      → contains r method endpoint ≡ ok (not b)
  unfolding contains
  contains-Added r r' method endpoint func b m a = ground arith

  get_function-Added :
      (r r' : Registry F) (method : Method) (endpoint : Text) (func : F) (b : Bool)
      (m : List (Text × F)) (other : Text)
      → Added r r' method endpoint func b m
      → get_function r' method other
        ≡ (if b && text_eq endpoint other then ok func else get_function r method other)
  get_function-Added r r' method endpoint func b m other a =
      ground (arith, get_function-store_at r method endpoint other func m)

  get_function-Added_ne :
      (r r' : Registry F) (method k : Method) (endpoint : Text) (func : F) (b : Bool)
      (m : List (Text × F)) (other : Text)
      → k ≢ method
      → Added r r' method endpoint func b m
      → get_function r' k other ≡ get_function r k other
  get_function-Added_ne r r' method k endpoint func b m other ne a =
      ground (arith, get_function-store_at_ne r method k other (FuncMap.set endpoint func m) ne)

  -- Registering an endpoint succeeds exactly if the method had none of that name; then it alone is
  -- found under its name and every other entry of every method is as before. If it fails, every
  -- entry is as before.
  pub get_function-add :
      (r r' : Registry F) (method : Method) (endpoint : Text) (func : F) (b : Bool)
      → add r method endpoint func ≡ ok (b, r')
      → (contains r method endpoint ≡ ok (not b))
        × ((other : Text)
            → get_function r' method other
              ≡ (if b && text_eq endpoint other then ok func else get_function r method other))
        × ((k : Method) (other : Text)
            → k ≢ method
            → get_function r' k other ≡ get_function r k other)
  get_function-add r r' method endpoint func b h =
      let (m, a) = add_cases r r' method endpoint func b h in
      (
        contains-Added r r' method endpoint func b m a,
        λ other. get_function-Added r r' method endpoint func b m other a,
        λ k other ne. get_function-Added_ne r r' method k endpoint func b m other ne a,
      )

  pub methods_at-cases :
      (r : Registry F) (method : Method)
      → ((method ≡ all) × (methods_at r method ≡ throw undefined_behaviour))
        ⊎ ((m : List (Text × F)) × (methods_at r method ≡ ok m))
  unfolding methods_at
  methods_at-cases r all = inl (refl, refl)
  methods_at-cases r get = inr (r.gets, refl)
  methods_at-cases r post = inr (r.posts, refl)
  methods_at-cases r put = inr (r.puts, refl)
  methods_at-cases r patch = inr (r.patches, refl)
  methods_at-cases r delete = inr (r.deletes, refl)
  methods_at-cases r options = inr (r.optionss, refl)
