-- ===== src/Platform/Registry.antt =====
-- internal/platform/registry.go. A map is an association list without double keys.
use socialpublish.Prelude.{String, Option, none, some, List, [], ◌∷◌, map, if◌then◌else◌, str_eq}
use socialpublish.Platform.Adapter.{PlatformAdapter}

pub record Registry : Type 0 where
  pub adapters : List (String × PlatformAdapter)

-- m[name] = adapter
unfoldable pub put :
    String → PlatformAdapter → List (String × PlatformAdapter) → List (String × PlatformAdapter)
put name adapter [] = (name, adapter) ∷ []
put name adapter ((other, old) ∷ m) =
    let rest = put name adapter m in
    if str_eq other name then (name, adapter) ∷ m else (other, old) ∷ rest

unfoldable pub find : String → List (String × PlatformAdapter) → Option PlatformAdapter
find name [] = none
find name ((other, adapter) ∷ m) =
    let rest = find name m in if str_eq other name then some adapter else rest

-- The loop of NewRegistry.
unfoldable pub register :
    List PlatformAdapter → List (String × PlatformAdapter) → List (String × PlatformAdapter)
register [] m = m
register (adapter ∷ adapters) m = register adapters (put adapter.platform adapter m)

unfoldable pub new_registry : List PlatformAdapter → Registry
unfolding register put
new_registry adapters = record { adapters = register adapters [] }

unfoldable pub get : Registry → String → Option PlatformAdapter
unfolding find
get r platform = find platform r.adapters

unfoldable pub platforms : Registry → List String
platforms r = map (λ entry. entry.0) r.adapters
