-- ===== src/Packages/Cycles/Examples.antt =====
-- A package that leads into a cycle of two others.
use omniagent_os.Base.{ℕ, ◌≡◌, ◌≢◌, refl, false, none, some, [], ◌∷◌, err}
use omniagent_os.Base.Map.{Map, get}
use omniagent_os.Packages.Resolver.{PackageManifest, circular_dependency, contains}
use omniagent_os.Packages.Cycles.{try_deps, dfs_cycle, detect_cycles}
use omniagent_os.Packages.Cycles.Depth.{IsLoop}
use omniagent_os.Packages.Cycles.Loops.{detect_cycles-enough, detect_cycles-IsLoop}

abbrev needing : ℕ → PackageManifest
needing n = record {
  version = [];
  dependencies = record { name = n; version_req = []; optional = false } ∷ [];
}

abbrev available : Map PackageManifest
available = (1, needing 2) ∷ (2, needing 3) ∷ (3, needing 2) ∷ []

detect_cycles-found : detect_cycles available 1 ≡ some (err (circular_dependency (2 ∷ 3 ∷ 2 ∷ [])))
unfolding contains try_deps dfs_cycle detect_cycles get
detect_cycles-found = refl

detect_cycles-enough_example : detect_cycles available 1 ≢ none
detect_cycles-enough_example = detect_cycles-enough available 1

detect_cycles-IsLoop_example : IsLoop available (2 ∷ 3 ∷ 2 ∷ [])
detect_cycles-IsLoop_example = detect_cycles-IsLoop available 1 (2 ∷ 3 ∷ 2 ∷ []) detect_cycles-found
