-- ===== src/Packages/Resolver/Cycles.antt =====
-- What resolve reports as a cycle: packages each of which depends on one of them.
use omniagent_os.Base.{
  ℕ, zero, suc, ◌+◌, ◌≤◌, ◌<◌, ◌≡◌, ◌≢◌, refl, sym, ap, ◌∙◌, subst, Bool, true, false, ◌&&◌, ◌||◌,
  not, Option, none, some, List, [], ◌∷◌, ◌++◌, ◌==◌, length, Result, ok, err, arith, Bool-cases,
  inl, inr,
}
use omniagent_os.Base.Strings.{Bytes}
use omniagent_os.Base.Map.{Map, get, insert}
use omniagent_os.Packages.Resolver.{
  Dependency, PackageManifest, PackageError, circular_dependency, contains, conflict, queued,
  queue_deps, visit, collected, collect, Collected, is_needed, needed_deps, deps_of, no_edges,
  build, keys, sorted_names, sort, not_installed, checked, ordered, sorting, unvisited, resolve,
}
use omniagent_os.Packages.Resolver.Closing.{IsCollecting, collect-Closure}
use omniagent_os.Packages.Resolver.Graphs.{count, contains-count, all_deps, all_deps-listed}
use omniagent_os.Packages.Resolver.Listing.{
  contains-keys, count-keys, missing-append, count-absent, remove_one, count-remove_one,
  length-remove_one,
}
use omniagent_os.Packages.Resolver.Releasing.{count-sort}
use omniagent_os.Packages.Resolver.Sorting.{missing, missing_bound, Sorted}
use omniagent_os.Packages.Resolver.Resolving.{
  start-IsCollecting, names-Sorted, length-keys, contains-same,
}

-- Whether one of the dependencies that are not optional is among the names.
unfoldable pub needs_one : List ℕ → List Dependency → Bool
needs_one names [] = false
needs_one names (d ∷ ds) = (not d.optional && contains d.name names) || needs_one names ds

abbrev pub needs_one_at : List ℕ → Option PackageManifest → Bool
needs_one_at names none = false
needs_one_at names (some m) = needs_one names m.dependencies

contains-not_installed :
    (x : ℕ) (order names : List ℕ)
    → contains x (not_installed order names) ≡ (contains x names && not (contains x order))
unfolding contains
contains-not_installed x order [] = refl
contains-not_installed x order (y ∷ names) = elim (Bool-cases (y == x)) [
  | inl s ↦
      let same : contains y order ≡ contains x order =
        ap (λ z. contains z order) (ground (arith, s)) in
      ground (arith, s, same, contains-not_installed x order names)
  | inr n ↦ ground (arith, n, contains-not_installed x order names)
]

contains-sort : (x : ℕ) (xs : List ℕ) → contains x (sort xs) ≡ contains x xs
contains-sort x xs = contains-same x (sort xs) xs (count-sort x xs)

missing-all_deps_once :
    (available : Map PackageManifest) (needed : Map Bytes) (before names : List ℕ) (n : ℕ)
    → count n names ≤ 1
    → missing before (all_deps available needed names n)
      ≤ missing before (deps_of needed (get n available))
missing-all_deps_once available needed before [] n h = omega arith
missing-all_deps_once available needed before (name ∷ names) n h = elim (Bool-cases (name == n)) [
  | inl y ↦
      let same : name ≡ n = ground (arith, y) in
      let rest = all_deps available needed names n in
      let no_more : length rest ≡ 0 =
        ground (arith, h, y, all_deps-listed available needed names n) in
      simp y (
        subst
          (λ k.
            missing before (deps_of needed (get k available) ++ rest)
            ≤ missing before (deps_of needed (get n available)))
          (sym same)
          (omega (
            arith,
            missing-append before (deps_of needed (get n available)) rest,
            missing_bound before rest,
            no_more,
          )))
  | inr k ↦ simp k (missing-all_deps_once available needed before names n (ground (arith, h, k)))
]

needs_one-missing :
    (needed : Map Bytes) (order cycle : List ℕ) (ds : List Dependency)
    → ((x : ℕ) → contains x cycle ≡ (is_needed (get x needed) && not (contains x order)))
    → missing order (needed_deps needed ds) ≢ 0
    → needs_one cycle ds ≡ true
unfolding needs_one
needs_one-missing needed order cycle [] s m = absurd (m refl)
needs_one-missing needed order cycle (d ∷ ds) s m =
    ground (arith, needs_one-missing needed order cycle ds s, s d.name, m)

length-counts : (xs ys : List ℕ) → ((n : ℕ) → count n xs ≤ count n ys) → length xs ≤ length ys
length-counts [] ys h = omega arith
length-counts (x ∷ xs) ys h =
    let here : (x == x) ≡ true = ground arith in
    let some_x : 0 < count x ys = ground (arith, h x) in
    let rest =
      length-counts xs (remove_one x ys)
        (λ k. ground (arith, h k, count-remove_one x k ys some_x)) in
    omega (arith, rest, length-remove_one x ys some_x)

-- Packages each of which depends on one of them, so that none of them can be the first: they are
-- not none.
pub record IsCycle (available : Map PackageManifest) (cycle : List ℕ) : Type 0 where
  pub some_in : cycle ≢ []
  pub again : (x : ℕ) → contains x cycle ≡ true → needs_one_at cycle (get x available) ≡ true

module _ (available : Map PackageManifest) (needed : Map Bytes) (final order : List ℕ)
    (c : IsCollecting available [] final needed)
    (s : Sorted (keys needed) (all_deps available needed (keys needed)) order) where
  abbrev left_over : List ℕ
  left_over = sort (not_installed order (keys needed))

  contains-left_over :
      (x : ℕ) → contains x left_over ≡ (is_needed (get x needed) && not (contains x order))
  contains-left_over x =
      contains-sort x (not_installed order (keys needed))
      ∙ ground (arith, contains-not_installed x order (keys needed), contains-keys x needed)

  not_placed :
      (x : ℕ) → contains x left_over ≡ true → missing order (deps_of needed (get x available)) ≢ 0
  not_placed x h e =
      let there : contains x (keys needed) ≡ true =
        ground (arith, h, contains-left_over x, contains-keys x needed) in
      let not_there : contains x order ≡ false = ground (arith, h, contains-left_over x) in
      let counted : count x order ≡ 0 = count-absent x order not_there in
      let once =
        missing-all_deps_once available needed order (keys needed) x
          (count-keys x needed c.order) in
      ground (arith, s.others x, once, e, counted, contains-count x (keys needed), there)

  needs_one-left_over :
      (x : ℕ) → contains x left_over ≡ true → needs_one_at left_over (get x available) ≡ true
  needs_one-left_over x h = at (get x available) (not_placed x h)
    where
      at :
          (o : Option PackageManifest)
          → missing order (deps_of needed o) ≢ 0
          → needs_one_at left_over o ≡ true
      at none m = absurd (m refl)
      at (some k) m = needs_one-missing needed order left_over k.dependencies contains-left_over m

  pub left_over-IsCycle : length order ≢ length needed → IsCycle available left_over
  unfolding contains
  left_over-IsCycle l = record {
    some_in = λ e.
        let all_in : (x : ℕ) → count x (keys needed) ≤ count x order = λ x. ground (
          arith,
          ap (contains x) e,
          contains-left_over x,
          contains-keys x needed,
          count-absent x (keys needed),
          count-keys x needed c.order,
          contains-count x order,
        ) in
        l (
          omega (
            arith,
            length-counts order (keys needed) s.some_once,
            length-counts (keys needed) order all_in,
            length-keys needed,
          ));
    again = needs_one-left_over;
  }

checked-IsCycle :
    (available : Map PackageManifest) (order : List ℕ) (needed : Map Bytes) (cycle : List ℕ)
    → (length order ≢ length needed → IsCycle available (sort (not_installed order (keys needed))))
    → checked needed order ≡ err (circular_dependency cycle)
    → IsCycle available cycle
checked-IsCycle available order needed cycle f = elim (Bool-cases (length order == length needed)) [
  | inl y ↦ simp y (λ e. absurd (cc e))
  | inr n ↦ simp n (λ e.
      let same : sort (not_installed order (keys needed)) ≡ cycle = cc e in
      subst (IsCycle available) same (f (λ z. ground (arith, n, z))))
]

not_circular :
    (available : Map PackageManifest) (name : ℕ) (visited : List ℕ) (ds : List Dependency)
    (queue cycle : List ℕ)
    → queue_deps available name visited ds queue ≢ err (circular_dependency cycle)
unfolding queue_deps
not_circular available name visited [] queue cycle = λ e. absurd (cc e)
not_circular available name visited (d ∷ ds) queue cycle =
    elim (Bool-cases (d.optional || contains d.name visited)) [
      | inl y ↦ simp y (not_circular available name visited ds queue cycle)
      | inr n ↦ simp n (
          passed (conflict d (get d.name available))
            (not_circular available name visited ds (queue ++ (d.name ∷ [])) cycle))
    ]
  where
    passed :
        (o : Option Bytes)
        → queue_deps available name visited ds (queue ++ (d.name ∷ []))
          ≢ err (circular_dependency cycle)
        → queued name d o (queue_deps available name visited ds (queue ++ (d.name ∷ [])))
          ≢ err (circular_dependency cycle)
    passed (some found) f e = absurd (cc e)
    passed none f e = f e

collect-not_circular :
    (n : ℕ) (available : Map PackageManifest) (queue visited : List ℕ) (needed : Map Bytes)
    (cycle : List ℕ)
    → collect n available queue visited needed ≢ some (err (circular_dependency cycle))
unfolding collect
collect-not_circular n available [] visited needed cycle = λ e. absurd (cc e)
collect-not_circular zero available (name ∷ queue) visited needed cycle = λ e. absurd (cc e)
collect-not_circular (suc n) available (name ∷ queue) visited needed cycle =
    elim (Bool-cases (contains name visited)) [
      | inl y ↦ simp y (collect-not_circular n available queue visited needed cycle)
      | inr k ↦ simp k (
          visiting (get name available)
            (λ q found. collect-not_circular n available q (visited ++ (name ∷ [])) found cycle))
    ]
  where
    visiting :
        (o : Option PackageManifest)
        → ((q : List ℕ) (found : Map Bytes)
            → collect n available q (visited ++ (name ∷ [])) found
              ≢ some (err (circular_dependency cycle)))
        → visit available name queue
            (visited ++ (name ∷ []))
            needed
            o
            (λ q found. collect n available q (visited ++ (name ∷ [])) found)
          ≢ some (err (circular_dependency cycle))
    visiting none f = λ e. absurd (cc e)
    visiting (some m) f =
        at (queue_deps available name (visited ++ (name ∷ [])) m.dependencies queue)
          (not_circular available name (visited ++ (name ∷ [])) m.dependencies queue cycle)
      where
        at :
            (r : Result (List ℕ) PackageError)
            → r ≢ err (circular_dependency cycle)
            → collected r
                (λ q. collect n available q (visited ++ (name ∷ [])) (insert name m.version needed))
              ≢ some (err (circular_dependency cycle))
        at (err x) z e = let same : x ≡ circular_dependency cycle = cc e in z (ap err same)
        at (ok q) z e = f q (insert name m.version needed) e

-- When resolve reports a cycle, the packages that it names are available, each of them depends on
-- one of them, other than as an option, and there is one at least.
pub resolve-IsCycle :
    (available : Map PackageManifest) (roots cycle : List ℕ)
    → resolve available roots ≡ some (err (circular_dependency cycle))
    → IsCycle available cycle
unfolding resolve
resolve-IsCycle available roots cycle =
    collecting (collect (length roots + unvisited [] available) available roots [] []) refl
  where
    collecting :
        (o : Collected)
        → collect (length roots + unvisited [] available) available roots [] [] ≡ o
        → sorting available o ≡ some (err (circular_dependency cycle))
        → IsCycle available cycle
    collecting none e s = absurd (cc s)
    collecting (some (err x)) e s = absurd (
        collect-not_circular (length roots + unvisited [] available) available roots [] [] cycle
          (let same : x ≡ circular_dependency cycle = cc s in e ∙ ap (λ w. some (err w)) same))
    collecting (some (ok needed)) e s =
        at (sorted_names (keys needed) (build available needed (keys needed) no_edges)) refl s
      where
        at :
            (o : Option (List ℕ))
            → sorted_names (keys needed) (build available needed (keys needed) no_edges) ≡ o
            → ordered needed o ≡ some (err (circular_dependency cycle))
            → IsCycle available cycle
        at none z c = absurd (cc c)
        at (some order) z c =
            checked-IsCycle available order needed cycle
              (λ l.
                let closure =
                  collect-Closure (length roots + unvisited [] available) available roots [] []
                    needed (start-IsCollecting available roots) e in
                left_over-IsCycle available needed closure.0 order closure.1.0
                  (names-Sorted available needed closure.0 closure.1.0 order z) l)
              (cc c)
