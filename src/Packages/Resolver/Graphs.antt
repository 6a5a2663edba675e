-- ===== src/Packages/Resolver/Graphs.antt =====
-- What the graph of the dependencies holds: as many edges between two packages as the one names the
-- other among its dependencies.
use omniagent_os.Base.{
  ℕ, ◌+◌, ◌≤◌, ◌<◌, ◌≡◌, refl, ◌∙◌, true, false, List, [], ◌∷◌, ◌++◌, ◌==◌, if◌then◌else◌, length,
  length-append, arith, Bool-cases, inl, inr,
}
use omniagent_os.Base.Strings.{Bytes}
use omniagent_os.Base.Map.{Map, get}
use omniagent_os.Packages.Resolver.{
  PackageManifest, Graph, no_edges, add_edge, add_edges, deps_of, build, contains,
}

abbrev pub count : ℕ → List ℕ → ℕ
count x [] = 0
count x (y ∷ ys) = (if y == x then 1 else 0) + count x ys

pub count-append : (x : ℕ) (ys zs : List ℕ) → count x (ys ++ zs) ≡ count x ys + count x zs
count-append x [] zs = omega arith
count-append x (y ∷ ys) zs = omega (arith, count-append x ys zs)

pub count-length : (x : ℕ) (ys : List ℕ) → count x ys ≤ length ys
count-length x [] = omega arith
count-length x (y ∷ ys) = ground (arith, count-length x ys)

pub contains-count : (x : ℕ) (ys : List ℕ) → count x ys ≡ 0 → contains x ys ≡ false
unfolding contains
contains-count x [] h = refl
contains-count x (y ∷ ys) h = ground (arith, contains-count x ys, h)

pub contains-counted : (x : ℕ) (ys : List ℕ) → 0 < count x ys → contains x ys ≡ true
unfolding contains
contains-counted x [] h = absurd (omega (arith, h))
contains-counted x (y ∷ ys) h = ground (arith, contains-counted x ys, h)

-- The dependencies of a package among those that are listed, each as often as it is named.
abbrev pub all_deps : Map PackageManifest → Map Bytes → List ℕ → ℕ → List ℕ
all_deps available needed [] n = []
all_deps available needed (name ∷ names) n =
    let rest = all_deps available needed names n in
    if name == n then deps_of needed (get name available) ++ rest else rest

-- A graph that has the edges of these dependencies.
pub record HasEdges (deps : ℕ → List ℕ) (g : Graph) : Type 0 where
  pub degree : (n : ℕ) → g.in_degree n ≡ length (deps n)
  pub edges : (n d : ℕ) → count n (g.dependents d) ≡ count d (deps n)

add_edges-degree :
    (name : ℕ) (ds : List ℕ) (g : Graph) (n : ℕ)
    → (add_edges name ds g).in_degree n ≡ g.in_degree n + (if name == n then length ds else 0)
add_edges-degree name [] g n = ground arith
add_edges-degree name (d ∷ ds) g n = add_edges-degree name ds (add_edge g d name) n ∙ ground arith

add_edges-edges :
    (name : ℕ) (ds : List ℕ) (g : Graph) (n e : ℕ)
    → count n ((add_edges name ds g).dependents e)
      ≡ count n (g.dependents e) + (if name == n then count e ds else 0)
add_edges-edges name [] g n e = ground arith
add_edges-edges name (d ∷ ds) g n e =
    add_edges-edges name ds (add_edge g d name) n e ∙ elim (Bool-cases (e == d)) [
      | inl y ↦ simp y (ground (arith, count-append n (g.dependents e) (name ∷ []), y))
      | inr k ↦ simp k (ground (arith, k))
    ]

build_degree :
    (available : Map PackageManifest) (needed : Map Bytes) (names : List ℕ) (g : Graph) (n : ℕ)
    → (build available needed names g).in_degree n
      ≡ g.in_degree n + length (all_deps available needed names n)
unfolding build
build_degree available needed [] g n = omega arith
build_degree available needed (name ∷ names) g n =
    let deps = deps_of needed (get name available) in
    build_degree available needed names (add_edges name deps g) n
    ∙ ground (
      arith,
      add_edges-degree name deps g n,
      length-append deps (all_deps available needed names n),
    )

build_edges :
    (available : Map PackageManifest) (needed : Map Bytes) (names : List ℕ) (g : Graph) (n e : ℕ)
    → count n ((build available needed names g).dependents e)
      ≡ count n (g.dependents e) + count e (all_deps available needed names n)
unfolding build
build_edges available needed [] g n e = omega arith
build_edges available needed (name ∷ names) g n e =
    let deps = deps_of needed (get name available) in
    build_edges available needed names (add_edges name deps g) n e
    ∙ ground (
      arith,
      add_edges-edges name deps g n e,
      count-append e deps (all_deps available needed names n),
    )

pub build-HasEdges :
    (available : Map PackageManifest) (needed : Map Bytes) (names : List ℕ)
    → HasEdges (all_deps available needed names) (build available needed names no_edges)
build-HasEdges available needed names = record {
  degree = λ n. build_degree available needed names no_edges n ∙ omega arith;
  edges = λ n d. build_edges available needed names no_edges n d ∙ omega arith;
}

-- Only the packages that are listed have dependencies.
pub all_deps-listed :
    (available : Map PackageManifest) (needed : Map Bytes) (names : List ℕ) (n : ℕ)
    → 0 < length (all_deps available needed names n)
    → 0 < count n names
all_deps-listed available needed [] n = λ h. absurd (omega (arith, h))
all_deps-listed available needed (name ∷ names) n = elim (Bool-cases (name == n)) [
  | inl y ↦ simp y (λ h. omega arith)
  | inr k ↦ simp k (λ h. omega (arith, all_deps-listed available needed names n h))
]
