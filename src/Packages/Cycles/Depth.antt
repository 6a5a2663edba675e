-- ===== src/Packages/Cycles/Depth.antt =====
-- The search ends within the levels that it is given, and what it reports is a cycle.
use omniagent_os.Base.{
  ℕ, ◌≤◌, ◌≡◌, refl, ap, Bool, true, false, ◌&&◌, ◌||◌, not, Option, none, some, List, [], ◌∷◌,
  ◌++◌, ◌==◌, ok, err, arith, Bool-cases, inl, inr,
}
use omniagent_os.Base.Map.{Map, get}
use omniagent_os.Packages.Resolver.{
  Dependency, PackageManifest, circular_dependency, contains, unvisited,
}
use omniagent_os.Packages.Cycles.{Search, from_position}

-- Whether a dependency that is not optional has the name.
unfoldable pub has_dep : ℕ → List Dependency → Bool
has_dep x [] = false
has_dep x (d ∷ ds) = (not d.optional && (d.name == x)) || has_dep x ds

abbrev pub has_dep_at : ℕ → Option PackageManifest → Bool
has_dep_at x none = false
has_dep_at x (some m) = has_dep x m.dependencies

-- Whether each of the packages depends on the next one.
unfoldable pub is_path : Map PackageManifest → List ℕ → Bool
is_path available [] = true
is_path available (x ∷ []) = true
is_path available (x ∷ y ∷ ys) = has_dep_at y (get x available) && is_path available (y ∷ ys)

-- A path that ends where it begins.
pub record IsLoop (available : Map PackageManifest) (cycle : List ℕ) : Type 0 where
  pub start : ℕ
  pub middle : List ℕ
  pub closed : cycle ≡ (start ∷ middle) ++ (start ∷ [])
  pub path : is_path available cycle ≡ true

is_path-tail :
    (available : Map PackageManifest) (x : ℕ) (xs : List ℕ)
    → is_path available (x ∷ xs) ≡ true
    → is_path available xs ≡ true
unfolding is_path
is_path-tail available x [] h = refl
is_path-tail available x (y ∷ xs) h = ground (arith, h)

pub is_path-snoc :
    (available : Map PackageManifest) (xs : List ℕ) (y z : ℕ)
    → is_path available (xs ++ (y ∷ [])) ≡ true
    → has_dep_at z (get y available) ≡ true
    → is_path available ((xs ++ (y ∷ [])) ++ (z ∷ [])) ≡ true
unfolding is_path
is_path-snoc available [] y z h e = ground (arith, e)
is_path-snoc available (x ∷ []) y z h e = ground (arith, h, e)
is_path-snoc available (x ∷ w ∷ xs) y z h e =
    ground (arith, h, is_path-snoc available (w ∷ xs) y z, e)

pub is_path-from_position :
    (available : Map PackageManifest) (x z : ℕ) (xs : List ℕ)
    → is_path available (xs ++ (z ∷ [])) ≡ true
    → is_path available (from_position x xs ++ (z ∷ [])) ≡ true
is_path-from_position available x z [] h = h
is_path-from_position available x z (y ∷ xs) h = elim (Bool-cases (y == x)) [
  | inl s ↦ simp s h
  | inr n ↦
      simp n (is_path-from_position available x z xs (is_path-tail available y (xs ++ (z ∷ [])) h))
]

pub from_position-start :
    (x : ℕ) (xs : List ℕ) → contains x xs ≡ true → (rest : List ℕ) × (from_position x xs ≡ x ∷ rest)
unfolding contains
from_position-start x [] h = absurd (cc h)
from_position-start x (y ∷ xs) h = elim (Bool-cases (y == x)) [
  | inl s ↦ let same : y ≡ x = ground (arith, s) in simp s (xs, ap (λ z. z ∷ xs) same)
  | inr n ↦ simp n (from_position-start x xs (ground (arith, h, n)))
]

pub unvisited_antitone :
    (available : Map PackageManifest) (vs ws : List ℕ)
    → ((x : ℕ) → contains x vs ≡ true → contains x ws ≡ true)
    → unvisited ws available ≤ unvisited vs available
unvisited_antitone [] vs ws h = omega arith
unvisited_antitone ((k, m) ∷ available) vs ws h =
    ground (arith, h k, unvisited_antitone available vs ws h)

-- A search that has an answer: a cycle, or more names that were visited.
abbrev pub Answers : Map PackageManifest → List ℕ → Search → Type 0
Answers available visited none = ⊥
Answers available visited (some (err e)) =
    (cycle : List ℕ) × ((e ≡ circular_dependency cycle) × IsLoop available cycle)
Answers available visited (some (ok found)) =
    (x : ℕ) → contains x visited ≡ true → contains x found ≡ true
