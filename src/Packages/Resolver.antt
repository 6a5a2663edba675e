-- ===== src/Packages/Resolver.antt =====
-- kernel/src/package/resolver.rs, and the manifests and errors that it reads: of a manifest, its
-- version and dependencies. The names in a cycle are a list. A loop has fuel, and gives none
-- without; the graph and the degrees are functions, read at the packages that are needed.
pub mod Collecting
pub mod Graphs
pub mod Closing
pub mod Listing
pub mod Releasing
pub mod Sorting
pub mod Resolving
pub mod Cycles
mod Examples
use omniagent_os.Base.{
  ℕ, zero, suc, ◌+◌, ◌-◌, ◌^◌, Bool, true, false, ◌&&◌, ◌||◌, not, Option, none, some, List, [],
  ◌∷◌, ◌++◌, ◌==◌, ltb, leb, if◌then◌else◌, length, Result, ok, err,
}
use omniagent_os.Base.Strings.{Bytes}
use omniagent_os.Base.Map.{Map, get, insert}
use omniagent_os.Packages.Version.{
  VersionMatchResult, matched, no_match, invalid_req, version_matches,
}

pub record Dependency : Type 0 where
  pub name : ℕ
  pub version_req : Bytes
  pub optional : Bool

pub record PackageManifest : Type 0 where
  pub version : Bytes
  pub dependencies : List Dependency

pub data PackageError : Type 0 where
  package_not_found : ℕ → PackageError
  package_already_exists : ℕ → PackageError
  invalid_version : Bytes → PackageError
  invalid_version_req : Bytes → PackageError
  dependency_not_found : ℕ → PackageError
  circular_dependency : List ℕ → PackageError
  version_conflict : ℕ → Bytes → Bytes → PackageError
  checksum_mismatch : Bytes → Bytes → PackageError
  invalid_state_transition : Bytes → Bytes → PackageError
  corrupted_package : ℕ → PackageError
  insufficient_space : ℕ → ℕ → PackageError

pub record ResolveResult : Type 0 where
  pub install_order : List ℕ
  pub resolved_versions : Map Bytes

unfoldable pub contains : ℕ → List ℕ → Bool
contains x [] = false
contains x (y ∷ ys) = (y == x) || contains x ys

abbrev pub is_no_match : VersionMatchResult → Bool
is_no_match no_match = true
is_no_match matched = false
is_no_match invalid_req = false

-- The version of the dependency that is available, if it does not match.
abbrev pub conflict : Dependency → Option PackageManifest → Option Bytes
conflict d none = none
conflict d (some m) =
    if is_no_match (version_matches d.version_req m.version) then some m.version else none

abbrev pub queued :
    ℕ → Dependency → Option Bytes → Result (List ℕ) PackageError → Result (List ℕ) PackageError
queued name d none rest = rest
queued name d (some found) rest = err (version_conflict name d.version_req found)

-- The dependencies of a package, put into the queue.
unfoldable pub queue_deps :
    Map PackageManifest → ℕ → List ℕ → List Dependency → List ℕ → Result (List ℕ) PackageError
queue_deps available name visited [] queue = ok queue
queue_deps available name visited (d ∷ ds) queue =
    let skipped = queue_deps available name visited ds queue in
    let pushed = queue_deps available name visited ds (queue ++ (d.name ∷ [])) in
    if d.optional || contains d.name visited
    then skipped
    else queued name d (conflict d (get d.name available)) pushed

abbrev pub Collected : Type 0
Collected = Option (Result (Map Bytes) PackageError)

abbrev pub collected : Result (List ℕ) PackageError → (List ℕ → Collected) → Collected
collected (err e) next = some (err e)
collected (ok queue) next = next queue

abbrev pub visit :
    Map PackageManifest
    → ℕ
    → List ℕ
    → List ℕ
    → Map Bytes
    → Option PackageManifest
    → (List ℕ → Map Bytes → Collected)
    → Collected
visit available name queue visited needed none next = some (err (dependency_not_found name))
visit available name queue visited needed (some m) next =
    collected (queue_deps available name visited m.dependencies queue)
      (λ q. next q (insert name m.version needed))

-- `while !queue.is_empty()`: the packages that are needed, with their versions.
unfoldable pub collect : ℕ → Map PackageManifest → List ℕ → List ℕ → Map Bytes → Collected
collect n available [] visited needed = some (ok needed)
collect zero available (name ∷ queue) visited needed = none
collect (suc n) available (name ∷ queue) visited needed =
    let skipped = collect n available queue visited needed in
    let now = visited ++ (name ∷ []) in
    if contains name visited
    then skipped
    else visit available name queue now needed (get name available)
        (λ q found. collect n available q now found)

pub record Graph : Type 0 where
  pub dependents : ℕ → List ℕ
  pub in_degree : ℕ → ℕ

abbrev pub no_edges : Graph
no_edges = record { dependents = λ x. []; in_degree = λ x. 0 }

abbrev pub add_edge : Graph → ℕ → ℕ → Graph
add_edge g dep name = record {
  dependents = λ x. if x == dep then g.dependents x ++ (name ∷ []) else g.dependents x;
  in_degree = λ x. if x == name then g.in_degree x + 1 else g.in_degree x;
}

abbrev pub is_needed : Option Bytes → Bool
is_needed none = false
is_needed (some version) = true

-- The dependencies that are not optional, and needed.
abbrev pub needed_deps : Map Bytes → List Dependency → List ℕ
needed_deps needed [] = []
needed_deps needed (d ∷ ds) =
    let rest = needed_deps needed ds in
    if not d.optional && is_needed (get d.name needed) then d.name ∷ rest else rest

abbrev pub deps_of : Map Bytes → Option PackageManifest → List ℕ
deps_of needed none = []
deps_of needed (some m) = needed_deps needed m.dependencies

abbrev pub add_edges : ℕ → List ℕ → Graph → Graph
add_edges name [] g = g
add_edges name (d ∷ ds) g = add_edges name ds (add_edge g d name)

unfoldable pub build : Map PackageManifest → Map Bytes → List ℕ → Graph → Graph
build available needed [] g = g
build available needed (name ∷ names) g =
    build available needed names (add_edges name (deps_of needed (get name available)) g)

abbrev pub insert_name : ℕ → List ℕ → List ℕ
insert_name x [] = x ∷ []
insert_name x (y ∷ ys) = if leb x y then x ∷ y ∷ ys else y ∷ insert_name x ys

abbrev pub sort : List ℕ → List ℕ
sort [] = []
sort (x ∷ xs) = insert_name x (sort xs)

-- `-= 1`, which wraps.
abbrev pub one_less : ℕ → ℕ
one_less d = if d == 0 then 2 ^ 64 - 1 else d - 1

-- One edge less into each of the neighbours; those without an edge become ready.
unfoldable pub release : List ℕ → (ℕ → ℕ) → List ℕ → (ℕ → ℕ) × List ℕ
release [] degree ready = (degree, ready)
release (x ∷ xs) degree ready =
    release xs (λ y. if y == x then one_less (degree y) else degree y)
      (if one_less (degree x) == 0 then sort (ready ++ (x ∷ [])) else ready)

-- `while !zero_degree.is_empty()`
unfoldable pub kahn : ℕ → (ℕ → List ℕ) → (ℕ → ℕ) → List ℕ → List ℕ → Option (List ℕ)
kahn n dependents degree [] order = some order
kahn zero dependents degree (x ∷ ready) order = none
kahn (suc n) dependents degree (x ∷ ready) order =
    let next = release (dependents x) degree ready in
    kahn n dependents next.0 next.1 (order ++ (x ∷ []))

abbrev pub keys : Map Bytes → List ℕ
keys [] = []
keys ((k, v) ∷ m) = k ∷ keys m

abbrev pub without_degree : (ℕ → ℕ) → List ℕ → List ℕ
without_degree degree [] = []
without_degree degree (x ∷ xs) =
    let rest = without_degree degree xs in if degree x == 0 then x ∷ rest else rest

abbrev pub not_installed : List ℕ → List ℕ → List ℕ
not_installed order [] = []
not_installed order (x ∷ xs) =
    let rest = not_installed order xs in if contains x order then rest else x ∷ rest

abbrev pub sum_of : (ℕ → ℕ) → List ℕ → ℕ
sum_of f [] = 0
sum_of f (x ∷ xs) = f x + sum_of f xs

-- A turn for each package that is ready, and one for each edge.
unfoldable pub sorted_names : List ℕ → Graph → Option (List ℕ)
sorted_names names g =
    let ready = sort (without_degree g.in_degree names) in
    kahn (length ready + sum_of g.in_degree names) g.dependents g.in_degree ready []

abbrev pub checked : Map Bytes → List ℕ → Result ResolveResult PackageError
checked needed order =
    if length order == length needed
    then ok (record { install_order = order; resolved_versions = needed })
    else err (circular_dependency (sort (not_installed order (keys needed))))

abbrev pub ordered : Map Bytes → Option (List ℕ) → Option (Result ResolveResult PackageError)
ordered needed none = none
ordered needed (some order) = some (checked needed order)

abbrev pub sorting : Map PackageManifest → Collected → Option (Result ResolveResult PackageError)
sorting available none = none
sorting available (some (err e)) = some (err e)
sorting available (some (ok needed)) =
    ordered needed (sorted_names (keys needed) (build available needed (keys needed) no_edges))

-- The dependencies of the packages that were not visited.
abbrev pub unvisited : List ℕ → Map PackageManifest → ℕ
unvisited visited [] = 0
unvisited visited ((name, m) ∷ available) =
    (if contains name visited then 0 else length m.dependencies) + unvisited visited available

-- A turn for each root package, and one for each dependency.
unfoldable pub resolve : Map PackageManifest → List ℕ → Option (Result ResolveResult PackageError)
resolve available roots =
    sorting available (collect (length roots + unvisited [] available) available roots [] [])
