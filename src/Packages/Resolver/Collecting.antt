-- ===== src/Packages/Resolver/Collecting.antt =====
-- The loop over the queue of names ends within the turns that it is given.
use omniagent_os.Base.{
  ℕ, zero, suc, ◌+◌, ◌≤◌, ◌≡◌, ◌≢◌, refl, ap, ◌∙◌, true, false, ◌||◌, Option, none, some, List, [],
  ◌∷◌, ◌++◌, ◌==◌, length, length-append, Result, ok, err, arith, Bool-cases, inl, inr,
}
use omniagent_os.Base.Strings.{Bytes}
use omniagent_os.Base.Map.{Map, get, insert}
use omniagent_os.Packages.Resolver.{
  Dependency, PackageManifest, PackageError, contains, conflict, queued, queue_deps, collected,
  visit, collect, unvisited,
}

pub contains-append :
    (x y : ℕ) (ys : List ℕ) → contains x (ys ++ (y ∷ [])) ≡ (contains x ys || (y == x))
unfolding contains
contains-append x y [] = ground arith
contains-append x y (z ∷ ys) = ground (arith, contains-append x y ys)

-- The queue grows by the dependencies at most.
length-queue_deps :
    (available : Map PackageManifest) (name : ℕ) (visited : List ℕ) (ds : List Dependency)
    (queue q : List ℕ)
    → queue_deps available name visited ds queue ≡ ok q
    → length q ≤ length queue + length ds
unfolding queue_deps
length-queue_deps available name visited [] queue q =
    λ e. let same : queue ≡ q = cc e in omega (arith, ap length same)
length-queue_deps available name visited (d ∷ ds) queue q =
    elim (Bool-cases (d.optional || contains d.name visited)) [
      | inl y ↦
          simp y (λ e.
            let le = length-queue_deps available name visited ds queue q e in omega (arith, le))
      | inr n ↦ simp n (
          pushed (conflict d (get d.name available)) (λ e.
            let le = length-queue_deps available name visited ds (queue ++ (d.name ∷ [])) q e in
            omega (arith, le, length-append queue (d.name ∷ []))))
    ]
  where
    pushed :
        (o : Option Bytes)
        → (queue_deps available name visited ds (queue ++ (d.name ∷ [])) ≡ ok q
            → length q ≤ length queue + suc (length ds))
        → queued name d o (queue_deps available name visited ds (queue ++ (d.name ∷ []))) ≡ ok q
        → length q ≤ length queue + suc (length ds)
    pushed (some found) f e = absurd (cc e)
    pushed none f e = f e

unvisited_mono :
    (available : Map PackageManifest) (name : ℕ) (visited : List ℕ)
    → unvisited (visited ++ (name ∷ [])) available ≤ unvisited visited available
unvisited_mono [] name visited = omega arith
unvisited_mono ((k, w) ∷ available) name visited =
    ground (arith, contains-append k name visited, unvisited_mono available name visited)

-- A package that is visited leaves its dependencies out of those to come.
pub unvisited-visit :
    (available : Map PackageManifest) (name : ℕ) (m : PackageManifest) (visited : List ℕ)
    → contains name visited ≡ false
    → get name available ≡ some m
    → unvisited (visited ++ (name ∷ [])) available + length m.dependencies
      ≤ unvisited visited available
unfolding get
unvisited-visit [] name m visited h = λ e. absurd (cc e)
unvisited-visit ((k, w) ∷ available) name m visited h = elim (Bool-cases (k == name)) [
  | inl y ↦ simp y (λ e.
      let one : w ≡ m = cc e in
      let deps : length w.dependencies ≡ length m.dependencies =
        ap (λ (x : PackageManifest). length x.dependencies) one in
      let same : k ≡ name = ground (arith, y) in
      let mine : contains k visited ≡ false = ap (λ x. contains x visited) same ∙ h in
      let now : contains k (visited ++ (name ∷ [])) ≡ true =
        ground (arith, contains-append k name visited, y) in
      simp now (simp mine (omega (arith, deps, unvisited_mono available name visited))))
  | inr n ↦ simp n (λ e.
      let le = unvisited-visit available name m visited h e in
      let away : (name == k) ≡ false = ground (arith, n) in
      ground (arith, contains-append k name visited, away, le))
]

-- A turn for each name in the queue, and for each dependency of a package that was not visited, is
-- enough.
pub collect-enough :
    (n : ℕ) (available : Map PackageManifest) (queue visited : List ℕ) (needed : Map Bytes)
    → length queue + unvisited visited available ≤ n
    → collect n available queue visited needed ≢ none
unfolding collect
collect-enough n available [] visited needed h = λ e. absurd (cc e)
collect-enough zero available (name ∷ queue) visited needed h = absurd (omega (arith, h))
collect-enough (suc n) available (name ∷ queue) visited needed h =
    elim (Bool-cases (contains name visited)) [
      | inl y ↦ simp y (collect-enough n available queue visited needed (omega (arith, h)))
      | inr k ↦ simp k (
          visiting (get name available) refl (λ m e q found le.
            let less = unvisited-visit available name m visited k e in
            collect-enough n available q (visited ++ (name ∷ [])) found
              (omega (arith, h, less, le))))
    ]
  where
    visiting :
        (o : Option PackageManifest)
        → get name available ≡ o
        → ((m : PackageManifest)
            → get name available ≡ some m
            → (q : List ℕ) (found : Map Bytes) → length q ≤ length queue + length m.dependencies
            → collect n available q (visited ++ (name ∷ [])) found ≢ none)
        → visit available name queue
            (visited ++ (name ∷ []))
            needed
            o
            (λ q found. collect n available q (visited ++ (name ∷ [])) found)
          ≢ none
    visiting none e f = λ z. absurd (cc z)
    visiting (some m) e f =
        at (queue_deps available name (visited ++ (name ∷ [])) m.dependencies queue) refl
      where
        at :
            (r : Result (List ℕ) PackageError)
            → queue_deps available name (visited ++ (name ∷ [])) m.dependencies queue ≡ r
            → collected r
                (λ q. collect n available q (visited ++ (name ∷ [])) (insert name m.version needed))
              ≢ none
        at (err x) z = λ c. absurd (cc c)
        at (ok q) z =
            f m e q (insert name m.version needed)
              (length-queue_deps available name (visited ++ (name ∷ [])) m.dependencies queue q z)
