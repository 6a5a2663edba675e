-- ===== src/Packages/Cycles.antt =====
-- kernel/src/package/resolver.rs: detect_cycles. A call has the stack that it is given, since a call
-- that succeeds leaves it as it was; the flag has_cycle is only written. The depth is the fuel.
pub mod Depth
pub mod Loops
mod Examples
use omniagent_os.Base.{
  ℕ, zero, suc, Bool, true, false, not, Option, none, some, List, [], ◌∷◌, ◌++◌, ◌==◌,
  if◌then◌else◌, Result, ok, err,
}
use omniagent_os.Base.Map.{Map, get}
use omniagent_os.Packages.Resolver.{
  Dependency, PackageManifest, PackageError, circular_dependency, contains, unvisited,
}

-- The names that were visited then, unless there is a cycle.
abbrev pub Search : Type 0
Search = Option (Result (List ℕ) PackageError)

-- `?`
abbrev pub and_then : Search → (List ℕ → Search) → Search
and_then none next = none
and_then (some (err e)) next = some (err e)
and_then (some (ok visited)) next = next visited

-- `stack[cycle_start..]`, from the first place that holds the name.
abbrev pub from_position : ℕ → List ℕ → List ℕ
from_position x [] = []
from_position x (y ∷ ys) = if y == x then y ∷ ys else from_position x ys

unfoldable pub try_deps : (ℕ → List ℕ → Search) → List ℕ → List Dependency → List ℕ → Search
try_deps dfs stack [] visited = some (ok visited)
try_deps dfs stack (d ∷ ds) visited =
    let skipped = try_deps dfs stack ds visited in
    let searched = and_then (dfs d.name visited) (λ v. try_deps dfs stack ds v) in
    if d.optional
    then skipped
    else (if not (contains d.name visited)
        then searched
        else (if contains d.name stack
            then some (err (circular_dependency (from_position d.name stack ++ (d.name ∷ []))))
            else skipped))

abbrev pub try_manifest : (ℕ → List ℕ → Search) → List ℕ → Option PackageManifest → List ℕ → Search
try_manifest dfs stack none visited = some (ok visited)
try_manifest dfs stack (some m) visited = try_deps dfs stack m.dependencies visited

unfoldable pub dfs_cycle : ℕ → Map PackageManifest → ℕ → List ℕ → List ℕ → Search
dfs_cycle zero available current visited stack = none
dfs_cycle (suc n) available current visited stack =
    let now = stack ++ (current ∷ []) in
    try_manifest (λ name v. dfs_cycle n available name v now) now (get current available)
      (visited ++ (current ∷ []))

abbrev pub outcome : Search → Option (Result (Unit {0}) PackageError)
outcome none = none
outcome (some (err e)) = some (err e)
outcome (some (ok visited)) = some (ok tt)

-- A level for the package, and for each dependency.
unfoldable pub detect_cycles : Map PackageManifest → ℕ → Option (Result (Unit {0}) PackageError)
detect_cycles available name =
    outcome (dfs_cycle (suc (unvisited [] available)) available name [] [])
