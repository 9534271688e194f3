-- ===== src/Http/Registry.antt =====
-- rockets/http/registry.cpp and registry.h: the endpoints of each method. `F` is the type of the
-- REST functions. Indexing `_methods` by `Method::ALL` reads past the end of the array, which is
-- `undefined_behaviour`.
pub mod Laws
pub mod Removal
pub mod Search
pub mod Allowed
use rockets.Prelude.{
  Text, bytes, is_empty, Bool, true, false, ◌||◌, Option, none, some, List, [], ◌∷◌, ◌++◌, is_some,
  if◌then◌else◌,
}
use rockets.Prelude.Result.{Result, ok, throw, out_of_range, undefined_behaviour, ◌>>=◌}
use rockets.Http.Types.{Method, get, post, put, patch, delete, options, all}
use rockets.Http.FuncMap
use rockets.Http.FuncMap.{IsSorted}

-- The array of maps, an entry for each method but `ALL`.
pub record Registry (F : Type 0) : Type 0 where
  pub gets : List (Text × F)
  pub posts : List (Text × F)
  pub puts : List (Text × F)
  pub patches : List (Text × F)
  pub deletes : List (Text × F)
  pub optionss : List (Text × F)

pub record SearchResult : Type 0 where
  pub found : Bool
  pub endpoint : Text

-- methods.append(methods.empty() ? "GET" : ", GET")
abbrev pub append_name : Text → Text → Text
append_name methods name = methods ++ (if is_empty methods then name else bytes ", " ++ name)

abbrev pub append_if : Bool → Text → Text → Text
append_if true name methods = append_name methods name
append_if false name methods = methods

module _ {F : Type 0} where
  abbrev pub empty_registry : Registry F
  empty_registry = record {
    gets = [];
    posts = [];
    puts = [];
    patches = [];
    deletes = [];
    optionss = [];
  }

  -- _methods[int(method)]
  unfoldable pub methods_at : Registry F → Method → Result (List (Text × F))
  methods_at r get = ok r.gets
  methods_at r post = ok r.posts
  methods_at r put = ok r.puts
  methods_at r patch = ok r.patches
  methods_at r delete = ok r.deletes
  methods_at r options = ok r.optionss
  methods_at r all = throw undefined_behaviour

  unfoldable pub store_at : Registry F → Method → List (Text × F) → Registry F
  store_at r get m = record r { gets = m }
  store_at r post m = record r { posts = m }
  store_at r put m = record r { puts = m }
  store_at r patch m = record r { patches = m }
  store_at r delete m = record r { deletes = m }
  store_at r options m = record r { optionss = m }
  store_at r all m = r

  unfoldable pub add : Registry F → Method → Text → F → Result (Bool × Registry F)
  unfolding methods_at store_at
  add r method endpoint func = do
    m ← methods_at r method
    ok (
        if is_some (FuncMap.lookup endpoint m)
        then (false, r)
        else (true, store_at r method (FuncMap.set endpoint func m)))

  -- method.erase(endpoint) != 0, for each map in turn
  unfoldable pub remove : Registry F → Text → Bool × Registry F
  remove r endpoint = (
    erases r.gets
        || erases r.posts
        || erases r.puts
        || erases r.patches
        || erases r.deletes
        || erases r.optionss,
    record {
      gets = FuncMap.erase endpoint r.gets;
      posts = FuncMap.erase endpoint r.posts;
      puts = FuncMap.erase endpoint r.puts;
      patches = FuncMap.erase endpoint r.patches;
      deletes = FuncMap.erase endpoint r.deletes;
      optionss = FuncMap.erase endpoint r.optionss;
    },
  )
    where
      erases : List (Text × F) → Bool
      erases m = is_some (FuncMap.lookup endpoint m)

  unfoldable pub contains : Registry F → Method → Text → Result Bool
  unfolding methods_at
  contains r method endpoint = do m ← methods_at r method; ok (is_some (FuncMap.lookup endpoint m))

  -- `funcMap.at(endpoint)` throws where there is no such endpoint.
  unfoldable pub get_function : Registry F → Method → Text → Result F
  unfolding methods_at
  get_function r method endpoint = do
    m ← methods_at r method
    elim (FuncMap.lookup endpoint m) [ none ↦ throw out_of_range | some f ↦ ok f ]

  unfoldable pub get_allowed_methods : Registry F → Text → Text
  get_allowed_methods r endpoint = append_if (has r.optionss) (bytes "OPTIONS") (
      append_if (has r.deletes) (bytes "DELETE") (
        append_if (has r.patches) (bytes "PATCH") (
          append_if (has r.puts) (bytes "PUT")
            (append_if (has r.posts) (bytes "POST") (append_if (has r.gets) (bytes "GET") [])))))
    where
      has : List (Text × F) → Bool
      has m = is_some (FuncMap.lookup endpoint m)

  unfoldable pub find_endpoint : Registry F → Method → Text → Result SearchResult
  unfolding methods_at contains
  find_endpoint r method path = do
    m ← methods_at r method
    elim (FuncMap.find_in path m) [
      | some endpoint ↦ ok (record { found = true; endpoint = endpoint })
      | none ↦ do
        root ← contains r method (bytes "/")
        ok (
            if root
            then record { found = true; endpoint = bytes "/" }
            else record { found = false; endpoint = [] })
    ]

  pub record IsValid (r : Registry F) : Type 0 where
    pub gets : IsSorted r.gets
    pub posts : IsSorted r.posts
    pub puts : IsSorted r.puts
    pub patches : IsSorted r.patches
    pub deletes : IsSorted r.deletes
    pub optionss : IsSorted r.optionss
