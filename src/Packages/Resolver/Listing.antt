-- ===== src/Packages/Resolver/Listing.antt =====
-- The names of a map and of the graph over them, counted.
use omniagent_os.Base.{
  ℕ, suc, ◌+◌, ◌≤◌, ◌<◌, ◌≡◌, refl, sym, ap, ◌∙◌, subst, true, false, none, List, [], ◌∷◌, ◌++◌,
  ◌==◌, if◌then◌else◌, length, arith, Bool-cases, inl, inr,
}
use omniagent_os.Base.Strings.{Bytes}
use omniagent_os.Base.Map.{Map, get, IsOrdered, IsOrdered-tail, get-head}
use omniagent_os.Packages.Resolver.{
  Dependency, PackageManifest, contains, is_needed, needed_deps, deps_of, keys,
}
use omniagent_os.Packages.Resolver.Closing.{are_listed}
use omniagent_os.Packages.Resolver.Graphs.{count, all_deps}
use omniagent_os.Packages.Resolver.Sorting.{missing}

pub contains-keys : (x : ℕ) (m : Map Bytes) → contains x (keys m) ≡ is_needed (get x m)
unfolding contains get
contains-keys x [] = refl
contains-keys x ((j, v) ∷ m) = ground (arith, contains-keys x m)

pub count-absent : (x : ℕ) (xs : List ℕ) → contains x xs ≡ false → count x xs ≡ 0
unfolding contains
count-absent x [] h = refl
count-absent x (y ∷ xs) h = ground (arith, count-absent x xs, h)

pub count-keys : (x : ℕ) (m : Map Bytes) → IsOrdered m → count x (keys m) ≤ 1
count-keys x [] o = omega arith
count-keys x ((j, v) ∷ m) o = elim (Bool-cases (j == x)) [
  | inl y ↦
      let same : j ≡ x = ground (arith, y) in
      let absent : get x m ≡ none = ap (λ k. get k m) (sym same) ∙ get-head j v m o in
      let none_left : count x (keys m) ≡ 0 =
        count-absent x (keys m) (contains-keys x m ∙ simp absent refl) in
      ground (arith, none_left)
  | inr k ↦ ground (arith, k, count-keys x m (IsOrdered-tail j v m o))
]

pub remove_one : ℕ → List ℕ → List ℕ
remove_one x [] = []
remove_one x (y ∷ ys) = let rest = remove_one x ys in if y == x then ys else y ∷ rest

pub count-remove_one :
    (x n : ℕ) (ys : List ℕ)
    → 0 < count x ys
    → count n (remove_one x ys) + (if x == n then 1 else 0) ≡ count n ys
unfolding remove_one
count-remove_one x n [] h = absurd (omega (arith, h))
count-remove_one x n (y ∷ ys) h = ground (arith, count-remove_one x n ys, h)

pub length-remove_one :
    (x : ℕ) (ys : List ℕ) → 0 < count x ys → suc (length (remove_one x ys)) ≡ length ys
unfolding remove_one
length-remove_one x [] h = absurd (omega (arith, h))
length-remove_one x (y ∷ ys) h = ground (arith, length-remove_one x ys, h)

-- A list that has no name more often than another one, and is no shorter, has none less often.
pub count-all :
    (xs ys : List ℕ)
    → ((n : ℕ) → count n xs ≤ count n ys)
    → length ys ≤ length xs
    → (n : ℕ) → count n ys ≤ count n xs
count-all [] [] h l n = omega arith
count-all [] (y ∷ ys) h l n = absurd (omega (arith, l))
count-all (x ∷ xs) ys h l n =
    let here : (x == x) ≡ true = ground arith in
    let some_x : 0 < count x ys = ground (arith, h x) in
    let rest =
      count-all xs (remove_one x ys) (λ k. ground (arith, h k, count-remove_one x k ys some_x))
        (omega (arith, l, length-remove_one x ys some_x)) n in
    ground (arith, rest, count-remove_one x n ys some_x)

pub missing-append :
    (before xs ys : List ℕ) → missing before (xs ++ ys) ≡ missing before xs + missing before ys
missing-append before [] ys = omega arith
missing-append before (x ∷ xs) ys = ground (arith, missing-append before xs ys)

pub missing-all_deps :
    (available : Map PackageManifest) (needed : Map Bytes) (before names : List ℕ) (n : ℕ)
    → contains n names ≡ true
    → missing before (deps_of needed (get n available))
      ≤ missing before (all_deps available needed names n)
unfolding contains
missing-all_deps available needed before [] n h = cc
missing-all_deps available needed before (name ∷ names) n h = elim (Bool-cases (name == n)) [
  | inl y ↦
      let same : name ≡ n = ground (arith, y) in
      simp y (
        subst
          (λ k.
            missing before (deps_of needed (get n available))
            ≤ missing before
                (deps_of needed (get k available) ++ all_deps available needed names n))
          (sym same)
          (omega (
            arith,
            missing-append before (deps_of needed (get n available))
                (all_deps available needed names n),
          )))
  | inr k ↦ simp k (missing-all_deps available needed before names n (ground (arith, h, k)))
]

pub are_listed-missing :
    (needed : Map Bytes) (before final : List ℕ) (ds : List Dependency)
    → ((x : ℕ) → is_needed (get x needed) ≡ contains x final)
    → are_listed final ds ≡ true
    → missing before (needed_deps needed ds) ≡ 0
    → are_listed before ds ≡ true
unfolding are_listed
are_listed-missing needed before final [] s l m = refl
are_listed-missing needed before final (d ∷ ds) s l m =
    ground (arith, are_listed-missing needed before final ds s, s d.name, l, m)
