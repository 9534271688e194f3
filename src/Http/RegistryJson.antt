-- ===== src/Http/RegistryJson.antt =====
-- `Registry::toJson` of rockets/http/registry.cpp, over the JSON library.
use rockets.Prelude.{Text, bytes, none, some, List, [], ◌∷◌, ◌++◌, map}
use rockets.Prelude.Assoc.{find, put, text_key}
use rockets.Json.{JsonLib, null, array, object}
use rockets.Json.Access.{text}
use rockets.Http.Registry.{Registry}

-- _append(body[endpoint], method), for each endpoint of one method
unfoldable pub append_methods {ℓ} :
    {F : Type ℓ} → Text → List (Text × F) → List (Text × List Text) → List (Text × List Text)
unfolding find put
append_methods name [] body = body
append_methods name ((endpoint, func) ∷ m) body =
    let names : List Text = elim (find endpoint body) [ none ↦ [] | some l ↦ l ] in
    append_methods name m (put endpoint (names ++ name ∷ []) body)

-- The endpoints with their methods.
unfoldable pub body_of : {F : Type 0} → Registry F → List (Text × List Text)
unfolding append_methods
body_of r = append_methods (bytes "OPTIONS") r.optionss (
    append_methods (bytes "DELETE") r.deletes (
      append_methods (bytes "PATCH") r.patches (
        append_methods (bytes "PUT") r.puts
          (append_methods (bytes "POST") r.posts (append_methods (bytes "GET") r.gets [])))))

module _ (lib : JsonLib) where
  entry : Text × List Text → Text × lib.Json
  entry (endpoint, names) = (endpoint, lib.make (array (map (text lib) names)))

  value_of : List (Text × List Text) → lib.Json
  unfolding entry
  value_of [] = lib.make null
  value_of (e ∷ es) = lib.make (object (map entry (e ∷ es)))

  -- body.dump(4)
  unfoldable pub to_json : {F : Type 0} → Registry F → Text
  unfolding value_of body_of
  to_json r = lib.dump (value_of (body_of r))
