-- ===== src/Packages/Resolver/Closing.antt =====
-- What the loop over the queue collects: the packages that are named and, of each package, all those
-- that it depends on.
use omniagent_os.Base.{
  ℕ, zero, suc, ◌≡◌, refl, sym, ap, ◌∙◌, subst, Bool, true, ◌&&◌, ◌||◌, Option, none, some, List,
  [], ◌∷◌, ◌++◌, ◌==◌, Result, ok, err, arith, Bool-cases, inl, inr,
}
use omniagent_os.Base.Strings.{Bytes}
use omniagent_os.Base.Map.{Map, get, insert, get-insert, IsOrdered, insert-IsOrdered}
use omniagent_os.Packages.Resolver.{
  Dependency, PackageManifest, PackageError, contains, conflict, queued, queue_deps, collected,
  visit, collect, is_needed,
}
use omniagent_os.Packages.Resolver.Collecting.{contains-append}

-- Whether the dependencies that are not optional are among the names.
unfoldable pub are_listed : List ℕ → List Dependency → Bool
are_listed names [] = true
are_listed names (d ∷ ds) = (d.optional || contains d.name names) && are_listed names ds

pub contains-++ :
    (x : ℕ) (ys zs : List ℕ) → contains x (ys ++ zs) ≡ (contains x ys || contains x zs)
unfolding contains
contains-++ x [] zs = ground arith
contains-++ x (y ∷ ys) zs = ground (arith, contains-++ x ys zs)

are_listed_mono :
    (names more : List ℕ) (ds : List Dependency)
    → ((x : ℕ) → contains x names ≡ true → contains x more ≡ true)
    → are_listed names ds ≡ true
    → are_listed more ds ≡ true
unfolding are_listed
are_listed_mono names more [] f h = refl
are_listed_mono names more (d ∷ ds) f h =
    ground (arith, are_listed_mono names more ds f, f d.name, h)

-- The queue keeps what it has, and gets the dependencies that were not visited.
queue_deps-are_listed :
    (available : Map PackageManifest) (name : ℕ) (visited : List ℕ) (ds : List Dependency)
    (queue q : List ℕ)
    → queue_deps available name visited ds queue ≡ ok q
    → ((x : ℕ) → contains x queue ≡ true → contains x q ≡ true)
      × (are_listed (visited ++ q) ds ≡ true)
unfolding queue_deps are_listed
queue_deps-are_listed available name visited [] queue q =
    λ e. let same : queue ≡ q = cc e in (λ x h. sym (ap (contains x) same) ∙ h, refl)
queue_deps-are_listed available name visited (d ∷ ds) queue q =
    elim (Bool-cases (d.optional || contains d.name visited)) [
      | inl y ↦ simp y (λ e.
          let rest = queue_deps-are_listed available name visited ds queue q e in
          (rest.0, ground (arith, rest.1, contains-++ d.name visited q, y)))
      | inr n ↦ simp n (λ e.
          let pushed = passed (conflict d (get d.name available)) e in
          let rest =
            queue_deps-are_listed available name visited ds (queue ++ (d.name ∷ [])) q pushed in
          let here : (d.name == d.name) ≡ true = ground arith in
          let mine : contains d.name q ≡ true =
            rest.0 d.name (ground (arith, contains-append d.name d.name queue, here)) in
          (
            λ x h. rest.0 x (ground (arith, contains-append x d.name queue, h)),
            ground (arith, rest.1, contains-++ d.name visited q, mine),
          ))
    ]
  where
    passed :
        (o : Option Bytes)
        → queued name d o (queue_deps available name visited ds (queue ++ (d.name ∷ []))) ≡ ok q
        → queue_deps available name visited ds (queue ++ (d.name ∷ [])) ≡ ok q
    passed (some found) e = absurd (cc e)
    passed none e = e

abbrev pub version_at : Option PackageManifest → Option Bytes
version_at none = none
version_at (some m) = some m.version

-- Where the loop stands: what was visited is needed, and in the version that is available; its
-- dependencies were visited or are in the queue.
pub record IsCollecting (available : Map PackageManifest) (queue visited : List ℕ)
    (needed : Map Bytes) : Type 0 where
  pub order : IsOrdered needed
  pub seen : (x : ℕ) → is_needed (get x needed) ≡ contains x visited
  pub versions : (x : ℕ) → contains x visited ≡ true → get x needed ≡ version_at (get x available)
  pub closed :
      (x : ℕ) (m : PackageManifest)
      → contains x visited ≡ true
      → get x available ≡ some m
      → are_listed (visited ++ queue) m.dependencies ≡ true

-- A name that was visited adds nothing to those that were or will be.
contains-skip :
    (name x : ℕ) (queue visited : List ℕ)
    → contains name visited ≡ true
    → contains x (visited ++ (name ∷ queue)) ≡ true
    → contains x (visited ++ queue) ≡ true
unfolding contains
contains-skip name x queue visited y i = elim (Bool-cases (name == x)) [
  | inl s ↦
      let same : name ≡ x = ground (arith, s) in
      let old : contains x visited ≡ true = ap (λ w. contains w visited) (sym same) ∙ y in
      ground (arith, contains-++ x visited queue, old)
  | inr s ↦ ground (arith, contains-++ x visited queue, contains-++ x visited (name ∷ queue), i, s)
]

-- Nothing is lost when a name is visited.
contains-visit :
    (name x : ℕ) (queue q visited : List ℕ)
    → contains x (visited ++ (name ∷ queue)) ≡ true
    → ((z : ℕ) → contains z queue ≡ true → contains z q ≡ true)
    → contains x ((visited ++ (name ∷ [])) ++ q) ≡ true
unfolding contains
contains-visit name x queue q visited h f = ground (
  arith,
  contains-++ x (visited ++ (name ∷ [])) q,
  contains-append x name visited,
  contains-++ x visited (name ∷ queue),
  f x,
  h,
)

skip-IsCollecting :
    (available : Map PackageManifest) (name : ℕ) (queue visited : List ℕ) (needed : Map Bytes)
    → contains name visited ≡ true
    → IsCollecting available (name ∷ queue) visited needed
    → IsCollecting available queue visited needed
unfolding contains
skip-IsCollecting available name queue visited needed y c = record {
  order = c.order;
  seen = c.seen;
  versions = c.versions;
  closed = λ x m h e.
      are_listed_mono (visited ++ (name ∷ queue)) (visited ++ queue) m.dependencies
        (λ z. contains-skip name z queue visited y) (c.closed x m h e);
}

visit-IsCollecting :
    (available : Map PackageManifest) (name : ℕ) (queue visited : List ℕ) (needed : Map Bytes)
    (m : PackageManifest) (q : List ℕ)
    → get name available ≡ some m
    → queue_deps available name (visited ++ (name ∷ [])) m.dependencies queue ≡ ok q
    → IsCollecting available (name ∷ queue) visited needed
    → IsCollecting available q (visited ++ (name ∷ [])) (insert name m.version needed)
unfolding contains
visit-IsCollecting available name queue visited needed m q e r c =
    let now = visited ++ (name ∷ []) in
    let deps = queue_deps-are_listed available name now m.dependencies queue q r in
    record {
      order = insert-IsOrdered name m.version needed c.order;
      seen = λ x.
          ground
            (arith, get-insert name x m.version needed, contains-append x name visited, c.seen x);
      versions = λ x h. elim (Bool-cases (name == x)) [
        | inl s ↦
            let same : name ≡ x = ground (arith, s) in
            let mine : get x available ≡ some m = ap (λ w. get w available) (sym same) ∙ e in
            simp mine (get-insert name x m.version needed ∙ simp s refl)
        | inr s ↦
            get-insert name x m.version needed
            ∙ simp s (c.versions x (ground (arith, h, contains-append x name visited, s)))
      ];
      closed = λ x k h f. elim (Bool-cases (name == x)) [
        | inl s ↦
            let same : name ≡ x = ground (arith, s) in
            let both : some m ≡ some k = sym e ∙ (ap (λ w. get w available) same ∙ f) in
            let one : m ≡ k = cc both in
            subst (λ (w : PackageManifest). are_listed (now ++ q) w.dependencies ≡ true) one deps.1
        | inr s ↦
            are_listed_mono (visited ++ (name ∷ queue)) (now ++ q) k.dependencies
              (λ z i. contains-visit name z queue q visited i deps.0)
              (c.closed x k (ground (arith, h, contains-append x name visited, s)) f)
      ];
    }

-- What the loop ends with: all that was visited or in the queue was visited in the end.
abbrev pub Closure : Map PackageManifest → List ℕ → Map Bytes → Type 0
Closure available names found =
    (final : List ℕ) × (IsCollecting available [] final found
      × ((x : ℕ) → contains x names ≡ true → contains x final ≡ true))

pub collect-Closure :
    (n : ℕ) (available : Map PackageManifest) (queue visited : List ℕ) (needed found : Map Bytes)
    → IsCollecting available queue visited needed
    → collect n available queue visited needed ≡ some (ok found)
    → Closure available (visited ++ queue) found
unfolding collect contains
collect-Closure n available [] visited needed found c = λ e.
    let same : needed ≡ found = cc e in
    (
      visited,
      (
        subst (IsCollecting available [] visited) same c,
        λ x h. ground (arith, h, contains-++ x visited []),
      ),
    )
collect-Closure zero available (name ∷ queue) visited needed found c = λ e. absurd (cc e)
collect-Closure (suc n) available (name ∷ queue) visited needed found c =
    elim (Bool-cases (contains name visited)) [
      | inl y ↦ simp y (λ e.
          let rest =
            collect-Closure n available queue visited needed found
              (skip-IsCollecting available name queue visited needed y c) e in
          (rest.0, (rest.1.0, λ x h. rest.1.1 x (contains-skip name x queue visited y h))))
      | inr k ↦ simp k (
          visiting (get name available) refl (λ m q v r e.
            let rest =
              collect-Closure n available q (visited ++ (name ∷ [])) (insert name m.version needed)
                found (visit-IsCollecting available name queue visited needed m q v r c) e in
            (
              rest.0,
              (
                rest.1.0,
                λ x h. rest.1.1 x (
                    contains-visit name x queue q visited h
                      (queue_deps-are_listed available name (visited ++ (name ∷ [])) m.dependencies
                        queue q r).0),
              ),
            )))
    ]
  where
    visiting :
        (o : Option PackageManifest)
        → get name available ≡ o
        → ((m : PackageManifest) (q : List ℕ)
            → get name available ≡ some m
            → queue_deps available name (visited ++ (name ∷ [])) m.dependencies queue ≡ ok q
            → collect n available q (visited ++ (name ∷ [])) (insert name m.version needed)
              ≡ some (ok found)
            → Closure available (visited ++ (name ∷ queue)) found)
        → visit available name queue
            (visited ++ (name ∷ []))
            needed
            o
            (λ q more. collect n available q (visited ++ (name ∷ [])) more)
          ≡ some (ok found)
        → Closure available (visited ++ (name ∷ queue)) found
    visiting none v f = λ e. absurd (cc e)
    visiting (some m) v f =
        at (queue_deps available name (visited ++ (name ∷ [])) m.dependencies queue) refl
      where
        at :
            (r : Result (List ℕ) PackageError)
            → queue_deps available name (visited ++ (name ∷ [])) m.dependencies queue ≡ r
            → collected r
                (λ q. collect n available q (visited ++ (name ∷ [])) (insert name m.version needed))
              ≡ some (ok found)
            → Closure available (visited ++ (name ∷ queue)) found
        at (err x) z e = absurd (cc e)
        at (ok q) z e = f m q v z e
