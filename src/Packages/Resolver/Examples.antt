-- ===== src/Packages/Resolver/Examples.antt =====
-- A shell that needs a library and, if there is one, a theme; the library needs a base.
use omniagent_os.Base.{ℕ, ◌≡◌, ◌≢◌, refl, true, false, none, some, List, [], ◌∷◌, ok, err}
use omniagent_os.Base.Strings.{Bytes}
use omniagent_os.Base.Map.{Map, get, insert}
use omniagent_os.Packages.Resolver.{
  Dependency, PackageManifest, version_conflict, circular_dependency, ResolveResult, contains,
  queue_deps, collect, build, release, kahn, sorted_names, resolve,
}
use omniagent_os.Packages.Version.{
  split_at, parse_u32, parse, less, check_single_condition, version_matches, matched,
}
use omniagent_os.Packages.Resolver.Cycles.{IsCycle, resolve-IsCycle}
use omniagent_os.Packages.Resolver.Resolving.{
  IsInstallation, resolve-enough, resolve-IsInstallation,
}

abbrev version_1_2_0 : Bytes
version_1_2_0 = 49 ∷ 46 ∷ 50 ∷ 46 ∷ 48 ∷ []

abbrev caret_1_0_0 : Bytes
caret_1_0_0 = 94 ∷ 49 ∷ 46 ∷ 48 ∷ 46 ∷ 48 ∷ []

abbrev caret_2_0_0 : Bytes
caret_2_0_0 = 94 ∷ 50 ∷ 46 ∷ 48 ∷ 46 ∷ 48 ∷ []

abbrev needs : ℕ → Bytes → Dependency
needs n req = record { name = n; version_req = req; optional = false }

abbrev manifest_of : List Dependency → PackageManifest
manifest_of ds = record { version = version_1_2_0; dependencies = ds }

-- The base is 1, the shell 2, the library 3; the theme, 4, is not available.
abbrev available : Map PackageManifest
available =
    (1, manifest_of [])
    ∷ (
      2,
      manifest_of (
          needs 3 caret_1_0_0
          ∷ record { name = 4; version_req = caret_2_0_0; optional = true }
          ∷ []),
    )
    ∷ (3, manifest_of (needs 1 caret_1_0_0 ∷ []))
    ∷ []

abbrev plan : ResolveResult
plan = record {
  install_order = 1 ∷ 3 ∷ 2 ∷ [];
  resolved_versions = (1, version_1_2_0) ∷ (2, version_1_2_0) ∷ (3, version_1_2_0) ∷ [];
}

caret-matched : version_matches caret_1_0_0 version_1_2_0 ≡ matched
unfolding version_matches split_at parse parse_u32 check_single_condition less
caret-matched = refl

resolve-plan : resolve available (2 ∷ []) ≡ some (ok plan)
unfolding version_matches split_at parse parse_u32 check_single_condition less contains queue_deps
    collect build release kahn sorted_names resolve get insert
resolve-plan = refl

-- Two packages that need each other.
resolve-circular :
    resolve
      ((1, manifest_of (needs 2 caret_1_0_0 ∷ []))
        ∷ (2, manifest_of (needs 1 caret_1_0_0 ∷ []))
        ∷ [])
      (1 ∷ [])
    ≡ some (err (circular_dependency (1 ∷ 2 ∷ [])))
unfolding version_matches split_at parse parse_u32 check_single_condition less contains queue_deps
    collect build release kahn sorted_names resolve get insert
resolve-circular = refl

resolve-conflict :
    resolve ((1, manifest_of (needs 2 caret_2_0_0 ∷ [])) ∷ (2, manifest_of []) ∷ []) (1 ∷ [])
    ≡ some (err (version_conflict 1 caret_2_0_0 version_1_2_0))
unfolding version_matches split_at parse parse_u32 check_single_condition less contains queue_deps
    collect build release kahn sorted_names resolve get insert
resolve-conflict = refl

-- A package that was visited before its requirement is seen is taken in any version.
resolve-unchecked :
    resolve ((1, manifest_of (needs 2 caret_2_0_0 ∷ [])) ∷ (2, manifest_of []) ∷ []) (2 ∷ 1 ∷ [])
    ≡ some (
        ok (record {
          install_order = 2 ∷ 1 ∷ [];
          resolved_versions = (1, version_1_2_0) ∷ (2, version_1_2_0) ∷ [];
        }))
unfolding version_matches split_at parse parse_u32 check_single_condition less contains queue_deps
    collect build release kahn sorted_names resolve get insert
resolve-unchecked = refl

resolve-enough_example : resolve available (2 ∷ []) ≢ none
resolve-enough_example = resolve-enough available (2 ∷ [])

resolve-IsInstallation_example : IsInstallation available (2 ∷ []) plan
resolve-IsInstallation_example = resolve-IsInstallation available (2 ∷ []) plan resolve-plan

resolve-IsCycle_example :
    IsCycle
      ((1, manifest_of (needs 2 caret_1_0_0 ∷ []))
        ∷ (2, manifest_of (needs 1 caret_1_0_0 ∷ []))
        ∷ [])
      (1 ∷ 2 ∷ [])
resolve-IsCycle_example =
    resolve-IsCycle
      ((1, manifest_of (needs 2 caret_1_0_0 ∷ []))
        ∷ (2, manifest_of (needs 1 caret_1_0_0 ∷ []))
        ∷ [])
      (1 ∷ []) (1 ∷ 2 ∷ []) resolve-circular
