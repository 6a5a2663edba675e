-- ===== src/Packages/Resolver/Resolving.antt =====
-- What resolve gives: an order in which the packages can be installed one after the other.
use omniagent_os.Base.{
  ℕ, suc, ◌+◌, ◌≤◌, ◌<◌, ◌≡◌, ◌≢◌, refl, sym, ap, ◌∙◌, subst, Bool, true, false, ◌&&◌, Option, none,
  some, List, [], ◌∷◌, ◌++◌, ◌==◌, if◌then◌else◌, length, ok, err, arith, Bool-cases, inl, inr,
}
use mathlib.Core.List.{append-nil}
use omniagent_os.Base.Strings.{Bytes}
use omniagent_os.Base.Map.{Map, get}
use omniagent_os.Packages.Resolver.{
  PackageManifest, ResolveResult, Graph, contains, collect, Collected, is_needed, needed_deps,
  deps_of, no_edges, build, keys, sorted_names, checked, ordered, sorting, unvisited, resolve,
}
use omniagent_os.Packages.Resolver.Collecting.{collect-enough}
use omniagent_os.Packages.Resolver.Closing.{are_listed, IsCollecting, version_at, collect-Closure}
use omniagent_os.Packages.Resolver.Graphs.{
  count, contains-count, contains-counted, all_deps, all_deps-listed, build-HasEdges,
}
use omniagent_os.Packages.Resolver.Listing.{
  contains-keys, count-keys, count-all, missing-all_deps, are_listed-missing,
}
use omniagent_os.Packages.Resolver.Sorting.{
  missing, is_order, Sorted, sorted_names-is_order, sorted_names-enough,
}

abbrev pub is_satisfied : List ℕ → Option PackageManifest → Bool
is_satisfied before none = false
is_satisfied before (some m) = are_listed before m.dependencies

-- Whether each of the packages is available, and comes after all that it depends on but for what is
-- optional.
unfoldable pub are_installable : Map PackageManifest → List ℕ → List ℕ → Bool
are_installable available before [] = true
are_installable available before (n ∷ names) =
    is_satisfied before (get n available) && are_installable available (before ++ (n ∷ [])) names

-- An order in which the packages can be installed, the roots among them, each once and in the
-- version that is available.
pub record IsInstallation (available : Map PackageManifest) (roots : List ℕ) (r : ResolveResult)
    : Type 0 where
  pub installable : are_installable available [] r.install_order ≡ true
  pub once : (x : ℕ) → count x r.install_order ≤ 1
  pub rooted : (x : ℕ) → contains x roots ≡ true → contains x r.install_order ≡ true
  pub versions :
      (x : ℕ)
      → get x r.resolved_versions
        ≡ (if contains x r.install_order then version_at (get x available) else none)

pub length-keys : (m : Map Bytes) → length (keys m) ≡ length m
length-keys [] = refl
length-keys ((j, v) ∷ m) = ap suc (length-keys m)

not_needed : (o : Option Bytes) → is_needed o ≡ false → o ≡ none
not_needed none h = refl
not_needed (some v) h = absurd (cc h)

-- Lists that have a name equally often both have it, or neither.
pub contains-same :
    (x : ℕ) (xs ys : List ℕ) → count x xs ≡ count x ys → contains x xs ≡ contains x ys
contains-same x xs ys h = elim (Bool-cases (count x xs == 0)) [
  | inl z ↦
      contains-count x xs (ground (arith, z)) ∙ sym (contains-count x ys (ground (arith, z, h)))
  | inr p ↦
      contains-counted x xs (ground (arith, p)) ∙ sym (contains-counted x ys (ground (arith, p, h)))
]

pub start-IsCollecting :
    (available : Map PackageManifest) (roots : List ℕ) → IsCollecting available roots [] []
unfolding contains get
start-IsCollecting available roots = record {
  order = tt;
  seen = λ x. refl;
  versions = λ x h. absurd (cc h);
  closed = λ x m h e. absurd (cc h);
}

module _ (available : Map PackageManifest) (needed : Map Bytes) (final : List ℕ)
    (c : IsCollecting available [] final needed) where
  abbrev deps : ℕ → List ℕ
  deps = all_deps available needed (keys needed)

  is_satisfied-missing :
      (before : List ℕ) (n : ℕ)
      → contains n final ≡ true
      → missing before (deps n) ≡ 0
      → is_satisfied before (get n available) ≡ true
  is_satisfied-missing before n seen m = at (get n available) refl
    where
      at : (o : Option PackageManifest) → get n available ≡ o → is_satisfied before o ≡ true
      at none e =
          let absent : get n needed ≡ none = c.versions n seen ∙ ap version_at e in
          let none_there : contains n final ≡ false = sym (c.seen n) ∙ ap is_needed absent in
          absurd (cc (none_there, seen))
      at (some k) e =
          let there : contains n (keys needed) ≡ true =
            contains-keys n needed ∙ (c.seen n ∙ seen) in
          let closed : are_listed final k.dependencies ≡ true =
            subst (λ l. are_listed l k.dependencies ≡ true) (append-nil final)
              (c.closed n k seen e) in
          let mine : deps_of needed (get n available) ≡ needed_deps needed k.dependencies =
            ap (deps_of needed) e in
          are_listed-missing needed before final k.dependencies c.seen closed (
            omega (
              arith,
              m,
              missing-all_deps available needed before (keys needed) n there,
              ap (missing before) mine,
            ))

  are_installable-is_order :
      (before names : List ℕ)
      → ((x : ℕ) → 0 < count x names → contains x final ≡ true)
      → is_order deps before names ≡ true
      → are_installable available before names ≡ true
  unfolding are_installable is_order
  are_installable-is_order before [] k h = refl
  are_installable-is_order before (n ∷ names) k h =
      let here : (n == n) ≡ true = ground arith in
      let seen : contains n final ≡ true = k n (ground arith) in
      let rest =
        are_installable-is_order (before ++ (n ∷ [])) names (λ x m. k x (ground (arith, m)))
          (ground (arith, h)) in
      let none_missing : missing before (deps n) ≡ 0 = ground (arith, h) in
      ground (arith, rest, is_satisfied-missing before n seen none_missing)

  distinct : (n : ℕ) → count n (keys needed) ≤ 1
  distinct n = count-keys n needed c.order

  listed : (n : ℕ) → 0 < length (deps n) → 0 < count n (keys needed)
  listed n = all_deps-listed available needed (keys needed) n

  abbrev graph : Graph
  graph = build available needed (keys needed) no_edges

  pub names-enough : sorted_names (keys needed) graph ≢ none
  names-enough =
      sorted_names-enough (keys needed) deps graph (build-HasEdges available needed (keys needed))
        distinct listed

  pub names-Sorted :
      (order : List ℕ)
      → sorted_names (keys needed) graph ≡ some order
      → Sorted (keys needed) deps order
  names-Sorted order e =
      sorted_names-is_order (keys needed) deps graph (build-HasEdges available needed (keys needed))
        distinct listed order e

  -- An order of as many names as are needed has each of them, once.
  pub installation :
      (roots order : List ℕ)
      → ((x : ℕ) → contains x roots ≡ true → contains x final ≡ true)
      → sorted_names (keys needed) graph ≡ some order
      → length order ≡ length needed
      → IsInstallation available roots
          (record { install_order = order; resolved_versions = needed })
  installation roots order roots_in e l =
      let sorted = names-Sorted order e in
      let all_there =
        count-all order (keys needed) sorted.some_once (omega (arith, l, length-keys needed)) in
      let kept : (x : ℕ) → contains x order ≡ contains x final = λ x.
        contains-same x order (keys needed) (omega (arith, sorted.some_once x, all_there x))
        ∙ (contains-keys x needed ∙ c.seen x) in
      record {
        installable =
            are_installable-is_order [] order (λ x m. sym (kept x) ∙ contains-counted x order m)
              sorted.right;
        once = λ x. omega (arith, sorted.some_once x, distinct x);
        rooted = λ x h. kept x ∙ roots_in x h;
        versions = λ x. elim (Bool-cases (contains x order)) [
          | inl y ↦ simp y (c.versions x (sym (kept x) ∙ y))
          | inr n ↦ simp n (not_needed (get x needed) (c.seen x ∙ (sym (kept x) ∙ n)))
        ];
      }

ordered-enough : (needed : Map Bytes) (o : Option (List ℕ)) → o ≢ none → ordered needed o ≢ none
ordered-enough needed none n e = n refl
ordered-enough needed (some order) n e = cc e

-- The two loops of resolve end: a turn for each root and each dependency is enough for the first
-- one, a turn for each name and each edge for the second one.
pub resolve-enough :
    (available : Map PackageManifest) (roots : List ℕ) → resolve available roots ≢ none
unfolding resolve
resolve-enough available roots =
    at (collect (length roots + unvisited [] available) available roots [] []) refl
      (collect-enough (length roots + unvisited [] available) available roots [] [] (omega arith))
  where
    at :
        (o : Collected)
        → collect (length roots + unvisited [] available) available roots [] [] ≡ o
        → collect (length roots + unvisited [] available) available roots [] [] ≢ none
        → sorting available o ≢ none
    at none e n = absurd (n e)
    at (some (err x)) e n = λ z. absurd (cc z)
    at (some (ok needed)) e n =
        let closure =
          collect-Closure (length roots + unvisited [] available) available roots [] [] needed
            (start-IsCollecting available roots) e in
        ordered-enough needed
          (sorted_names (keys needed) (build available needed (keys needed) no_edges))
          (names-enough available needed closure.0 closure.1.0)

checked-IsInstallation :
    (available : Map PackageManifest) (roots order : List ℕ) (needed : Map Bytes)
    (r : ResolveResult)
    → (length order ≡ length needed
        → IsInstallation available roots
            (record { install_order = order; resolved_versions = needed }))
    → checked needed order ≡ ok r
    → IsInstallation available roots r
checked-IsInstallation available roots order needed r f =
    elim (Bool-cases (length order == length needed)) [
      | inl y ↦ simp y (λ e.
          let same : record { install_order = order; resolved_versions = needed } ≡ r = cc e in
          subst (IsInstallation available roots) same (f (ground (arith, y))))
      | inr n ↦ simp n (λ e. absurd (cc e))
    ]

-- When resolve succeeds, its order has every root, and each of its packages is available, comes
-- once, in the version that is available, and after all the packages that it depends on but for
-- optional ones; and there is a version for the packages of the order only.
pub resolve-IsInstallation :
    (available : Map PackageManifest) (roots : List ℕ) (r : ResolveResult)
    → resolve available roots ≡ some (ok r)
    → IsInstallation available roots r
unfolding resolve
resolve-IsInstallation available roots r =
    collecting (collect (length roots + unvisited [] available) available roots [] []) refl
  where
    collecting :
        (o : Collected)
        → collect (length roots + unvisited [] available) available roots [] [] ≡ o
        → sorting available o ≡ some (ok r)
        → IsInstallation available roots r
    collecting none e s = absurd (cc s)
    collecting (some (err x)) e s = absurd (cc s)
    collecting (some (ok needed)) e s =
        at (sorted_names (keys needed) (build available needed (keys needed) no_edges)) refl s
      where
        at :
            (o : Option (List ℕ))
            → sorted_names (keys needed) (build available needed (keys needed) no_edges) ≡ o
            → ordered needed o ≡ some (ok r)
            → IsInstallation available roots r
        at none z c = absurd (cc c)
        at (some order) z c =
            checked-IsInstallation available roots order needed r
              (λ l.
                let closure =
                  collect-Closure (length roots + unvisited [] available) available roots [] []
                    needed (start-IsCollecting available roots) e in
                installation available needed closure.0 closure.1.0 roots order closure.1.1 z l)
              (cc c)
