-- ===== src/Packages/Conflicts.antt =====
-- kernel/src/package/resolver.rs: check_version_conflicts. What is required of a package is listed
-- under its name, with the package that requires it.
pub mod Checking
mod Examples
use omniagent_os.Base.{
  ℕ, Bool, true, false, not, Option, none, some, List, [], ◌∷◌, ◌++◌, ◌==◌, ltb, if◌then◌else◌,
  Result, ok, err,
}
use omniagent_os.Base.Strings.{Bytes}
use omniagent_os.Base.Map.{Map, get}
use omniagent_os.Packages.Version.{version_matches}
use omniagent_os.Packages.Resolver.{
  Dependency, PackageManifest, PackageError, version_conflict, is_no_match,
}

abbrev pub Requirements : Type 0
Requirements = Map (List (ℕ × Bytes))

-- `entry(k).or_insert_with(..).push(r)`
unfoldable pub push : ℕ → ℕ × Bytes → Requirements → Requirements
push k r [] = (k, r ∷ []) ∷ []
push k r ((j, reqs) ∷ m) =
    let later = (j, reqs) ∷ push k r m in
    if ltb k j
    then (k, r ∷ []) ∷ (j, reqs) ∷ m
    else if k == j
    then (j, reqs ++ (r ∷ [])) ∷ m
    else later

abbrev pub require_deps : ℕ → List Dependency → Requirements → Requirements
require_deps requirer [] m = m
require_deps requirer (d ∷ ds) m =
    require_deps requirer ds (if d.optional then m else push d.name (requirer, d.version_req) m)

abbrev pub require : ℕ → Option PackageManifest → Requirements → Requirements
require requirer none m = m
require requirer (some manifest) m = require_deps requirer manifest.dependencies m

unfoldable pub requirements : Map PackageManifest → List ℕ → Requirements → Requirements
requirements available [] m = m
requirements available (name ∷ names) m =
    requirements available names (require name (get name available) m)

abbrev pub Checked : Type 0
Checked = Result (Unit {0}) PackageError

abbrev pub check_reqs : Bytes → List (ℕ × Bytes) → Checked → Checked
check_reqs version [] rest = rest
check_reqs version ((requirer, req) ∷ reqs) rest =
    let next = check_reqs version reqs rest in
    if is_no_match (version_matches req version)
    then err (version_conflict requirer req version)
    else next

abbrev pub check_found : Option PackageManifest → List (ℕ × Bytes) → Checked → Checked
check_found none reqs rest = rest
check_found (some m) reqs rest = check_reqs m.version reqs rest

unfoldable pub check : Map PackageManifest → Requirements → Checked
check available [] = ok tt
check available ((name, reqs) ∷ m) = check_found (get name available) reqs (check available m)

unfoldable pub check_version_conflicts : Map PackageManifest → List ℕ → Checked
check_version_conflicts available packages = check available (requirements available packages [])
