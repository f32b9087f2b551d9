-- ===== src/Platform/Laws.antt =====
-- internal/platform: the registry as a map, and what the adapters of the server can do.
use socialpublish.Prelude.{
  ℕ, String, Option, Option-cases, none, some, List, [], ◌∷◌, if◌then◌else◌, str_eq, str_eq_iff, ok,
  inl, inr, ◌≡◌, ◌≢◌, refl, arith,
}
use socialpublish.Platform.Adapter.{PublishRequest, PublishResult, PlatformAdapter}
use socialpublish.Platform.Registry.{put, find, get, new_registry, register}
use socialpublish.Platform.Instagram
use socialpublish.Platform.Youtube

find-put :
    (name other : String) (adapter : PlatformAdapter) (m : List (String × PlatformAdapter))
    → find other (put name adapter m) ≡ (if str_eq name other then some adapter else find other m)
unfolding find put
find-put name other adapter [] = refl
find-put name other adapter ((key, old) ∷ m) = ground (
  arith,
  str_eq_iff name other,
  str_eq_iff key name,
  str_eq_iff key other,
  find-put name other adapter m,
)

-- The last adapter of a list with the given platform.
unfoldable last_of : String → List PlatformAdapter → Option PlatformAdapter
last_of platform [] = none
last_of platform (a ∷ rest) = elim (last_of platform rest) [
  | some b ↦ some b
  | none ↦ if str_eq a.platform platform then some a else none
]

find-register :
    (platform : String) (adapters : List PlatformAdapter) (m : List (String × PlatformAdapter))
    → find platform (register adapters m)
      ≡ elim (last_of platform adapters) [ some a ↦ some a | none ↦ find platform m ]
unfolding register last_of
find-register platform [] m = refl
find-register platform (a ∷ rest) m =
    ground
      (arith, find-register platform rest (put a.platform a m), find-put a.platform platform a m)

-- A registry finds, for every platform, the last adapter that it was built from with that platform,
-- and none if there is no such adapter.
get-new_registry :
    (platform : String) (adapters : List PlatformAdapter)
    → get (new_registry adapters) platform ≡ last_of platform adapters
unfolding get new_registry find
get-new_registry platform adapters = ground (arith, find-register platform adapters [])

-- The adapters of the server never publish: each call is an error, whatever the request.
publish-unconfigured :
    (n : ℕ) (req : Option PublishRequest) (result : PublishResult)
    → (Instagram.adapter.publish n req ≢ ok result) × (Youtube.adapter.publish n req ≢ ok result)
unfolding Instagram.adapter Youtube.adapter Instagram.publish Youtube.publish
publish-unconfigured n none result = ground arith
publish-unconfigured n (some req) result = elim (Option-cases req.target) [
  | inl e ↦ ground arith
  | inr (target, e) ↦ ground arith
]
