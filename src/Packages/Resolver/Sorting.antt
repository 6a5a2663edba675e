-- ===== src/Packages/Resolver/Sorting.antt =====
-- The topological sort: each name comes once, and after all of those that it depends on.
use omniagent_os.Base.{
  ℕ, zero, suc, ◌+◌, ◌≤◌, ◌<◌, ◌≡◌, ◌≢◌, refl, sym, ap, ◌∙◌, Bool, true, false, ◌&&◌, none, some,
  List, [], ◌∷◌, ◌++◌, ◌==◌, if◌then◌else◌, length, arith, Bool-cases, inl, inr,
}
use mathlib.Core.List.{append-nil, append_assoc}
use omniagent_os.Packages.Resolver.{
  contains, Graph, sort, release, kahn, sum_of, without_degree, sorted_names,
}
use omniagent_os.Packages.Resolver.Collecting.{contains-append}
use omniagent_os.Packages.Resolver.Graphs.{
  count, count-append, count-length, contains-count, HasEdges,
}
use omniagent_os.Packages.Resolver.Releasing.{count-sort, release-Releases, length-release}

-- How many of the dependencies are not among the names.
abbrev pub missing : List ℕ → List ℕ → ℕ
missing names [] = 0
missing names (d ∷ ds) = (if contains d names then 0 else 1) + missing names ds

-- Whether none of the dependencies of a name is missing before it.
unfoldable pub is_order : (ℕ → List ℕ) → List ℕ → List ℕ → Bool
is_order deps before [] = true
is_order deps before (n ∷ names) =
    (missing before (deps n) == 0) && is_order deps (before ++ (n ∷ [])) names

missing_snoc :
    (x : ℕ) (names ds : List ℕ)
    → contains x names ≡ false
    → missing (names ++ (x ∷ [])) ds + count x ds ≡ missing names ds
missing_snoc x names [] h = omega arith
missing_snoc x names (d ∷ ds) h =
    let rest = missing_snoc x names ds h in
    elim (Bool-cases (d == x)) [
      | inl y ↦
          let same : d ≡ x = ground (arith, y) in
          let away : contains d names ≡ false = ap (λ z. contains z names) same ∙ h in
          let back : (x == d) ≡ true = ground (arith, y) in
          ground (arith, rest, contains-append d x names, y, away, back)
      | inr k ↦
          let back : (x == d) ≡ false = ground (arith, k) in
          ground (arith, rest, contains-append d x names, k, back)
    ]

pub missing_bound : (names ds : List ℕ) → missing names ds ≤ length ds
missing_bound names [] = omega arith
missing_bound names (d ∷ ds) = ground (arith, missing_bound names ds)

is_order-snoc :
    (deps : ℕ → List ℕ) (before names : List ℕ) (x : ℕ)
    → is_order deps before names ≡ true
    → missing (before ++ names) (deps x) ≡ 0
    → is_order deps before (names ++ (x ∷ [])) ≡ true
unfolding is_order
is_order-snoc deps before [] x h m =
    let same : before ++ [] ≡ before = append-nil before in
    let none_missing : missing before (deps x) ≡ 0 = ap (λ z. missing z (deps x)) (sym same) ∙ m in
    ground (arith, none_missing)
is_order-snoc deps before (n ∷ names) x h m =
    let same : (before ++ (n ∷ [])) ++ names ≡ before ++ (n ∷ names) =
      append_assoc before (n ∷ []) names in
    ground (
      arith,
      h,
      is_order-snoc deps (before ++ (n ∷ [])) names x,
      ap (λ z. missing z (deps x)) same ∙ m,
    )

-- Where the sort stands: what is ready has all its dependencies in the order, which is right so far.
pub record IsSorting (names : List ℕ) (deps : ℕ → List ℕ) (degree : ℕ → ℕ) (ready order : List ℕ)
    : Type 0 where
  pub degrees : (n : ℕ) → degree n ≡ missing order (deps n)
  pub free : (n : ℕ) → 0 < count n ready → degree n ≡ 0
  pub placed : (n : ℕ) → 0 < count n order → degree n ≡ 0
  pub once : (n : ℕ) → count n ready + count n order ≤ count n names
  pub complete : (n : ℕ) → 0 < count n names → degree n ≡ 0 → 0 < count n ready + count n order
  pub earlier : is_order deps [] order ≡ true

-- What the sort ends with.
pub record Sorted (names : List ℕ) (deps : ℕ → List ℕ) (found : List ℕ) : Type 0 where
  pub right : is_order deps [] found ≡ true
  pub some_once : (n : ℕ) → count n found ≤ count n names
  pub others : (n : ℕ) → 0 < count n names → missing found (deps n) ≡ 0 → 0 < count n found

module _ (names : List ℕ) (deps dependents : ℕ → List ℕ)
    (edges : (n d : ℕ) → count n (dependents d) ≡ count d (deps n))
    (distinct : (n : ℕ) → count n names ≤ 1)
    (listed : (n : ℕ) → 0 < length (deps n) → 0 < count n names) where
  not_placed :
      (degree : ℕ → ℕ) (x : ℕ) (ready order : List ℕ)
      → IsSorting names deps degree (x ∷ ready) order
      → contains x order ≡ false
  not_placed degree x ready order s =
      let here : (x == x) ≡ true = ground arith in
      contains-count x order (ground (arith, s.once x, distinct x))

  pub count-dependents :
      (degree : ℕ → ℕ) (x : ℕ) (ready order : List ℕ)
      → IsSorting names deps degree (x ∷ ready) order
      → (n : ℕ) → count n (dependents x) ≤ degree n
  count-dependents degree x ready order s n = omega (
    arith,
    s.degrees n,
    edges n x,
    missing_snoc x order (deps n) (not_placed degree x ready order s),
  )

  pub turn-IsSorting :
      (degree : ℕ → ℕ) (x : ℕ) (ready order : List ℕ)
      → IsSorting names deps degree (x ∷ ready) order
      → IsSorting names deps
          (release (dependents x) degree ready).0
          (release (dependents x) degree ready).1
          (order ++ (x ∷ []))
  turn-IsSorting degree x ready order s =
      let here : (x == x) ≡ true = ground arith in
      let free_x : degree x ≡ 0 = s.free x (ground arith) in
      let r =
        release-Releases (dependents x) degree ready (count-dependents degree x ready order s)
          (λ n m. s.free n (omega (arith, m))) in
      record {
        degrees = λ n. omega (
          arith,
          r.fewer n,
          s.degrees n,
          edges n x,
          missing_snoc x order (deps n) (not_placed degree x ready order s),
        );
        free = r.free;
        placed =
            λ n m. ground (arith, m, r.fewer n, s.placed n, free_x, count-append n order (x ∷ []));
        once = λ n. ground (
          arith,
          r.added n,
          s.once n,
          s.degrees n,
          missing_bound order (deps n),
          listed n,
          s.free n,
          s.placed n,
          free_x,
          count-append n order (x ∷ []),
        );
        complete = λ n i z.
            ground (arith, i, z, s.complete n, r.freed n, r.kept n, count-append n order (x ∷ []));
        earlier = is_order-snoc deps [] order x s.earlier (sym (s.degrees x) ∙ free_x);
      }

  -- What the sort gives is an order that is right, of some of the names, each once; of the others,
  -- each has a dependency that is missing.
  pub kahn-IsSorting :
      (n : ℕ) (degree : ℕ → ℕ) (ready order found : List ℕ)
      → IsSorting names deps degree ready order
      → kahn n dependents degree ready order ≡ some found
      → Sorted names deps found
  unfolding kahn
  kahn-IsSorting n degree [] order found s e =
      let same : order ≡ found = cc e in
      record {
        right = ap (is_order deps []) (sym same) ∙ s.earlier;
        some_once = λ x. omega (arith, s.once x, ap (count x) same);
        others = λ x i z.
            let placed : 0 < count x [] + count x order =
              s.complete x i (s.degrees x ∙ (ap (λ l. missing l (deps x)) same ∙ z)) in
            omega (arith, placed, ap (count x) same);
      }
  kahn-IsSorting zero degree (x ∷ ready) order found s e = absurd (cc e)
  kahn-IsSorting (suc n) degree (x ∷ ready) order found s e =
      kahn-IsSorting n (release (dependents x) degree ready).0
        (release (dependents x) degree ready).1 (order ++ (x ∷ [])) found
        (turn-IsSorting degree x ready order s) e

  -- A turn for each name that is ready, and one for each edge, is enough.
  pub kahn-enough :
      (n : ℕ) (degree : ℕ → ℕ) (ready order : List ℕ)
      → IsSorting names deps degree ready order
      → length ready + sum_of degree names ≤ n
      → kahn n dependents degree ready order ≢ none
  unfolding kahn
  kahn-enough n degree [] order s h = λ e. absurd (cc e)
  kahn-enough zero degree (x ∷ ready) order s h = absurd (omega (arith, h))
  kahn-enough (suc n) degree (x ∷ ready) order s h =
      let fewer =
        length-release (dependents x) degree ready names (count-dependents degree x ready order s)
          (λ y m. listed y (omega (arith, m, edges y x, count-length x (deps y)))) in
      kahn-enough n (release (dependents x) degree ready).0 (release (dependents x) degree ready).1
        (order ++ (x ∷ [])) (turn-IsSorting degree x ready order s) (omega (arith, h, fewer))

count-without_degree :
    (degree : ℕ → ℕ) (names : List ℕ) (n : ℕ)
    → count n (without_degree degree names) ≡ (if degree n == 0 then count n names else 0)
count-without_degree degree [] n = ground arith
count-without_degree degree (x ∷ names) n = ground (arith, count-without_degree degree names n)

missing_all : (ds : List ℕ) → missing [] ds ≡ length ds
unfolding contains
missing_all [] = refl
missing_all (d ∷ ds) = omega (arith, missing_all ds)

module _ (names : List ℕ) (deps : ℕ → List ℕ) (g : Graph) (e : HasEdges deps g)
    (distinct : (n : ℕ) → count n names ≤ 1)
    (listed : (n : ℕ) → 0 < length (deps n) → 0 < count n names) where
  -- The start: nothing is placed, and what has no edges is ready.
  start-IsSorting : IsSorting names deps g.in_degree (sort (without_degree g.in_degree names)) []
  unfolding is_order
  start-IsSorting = record {
    degrees = λ n. e.degree n ∙ sym (missing_all (deps n));
    free = λ n m. ground (
      arith,
      m,
      count-sort n (without_degree g.in_degree names),
      count-without_degree g.in_degree names n,
    );
    placed = λ n m. absurd (omega (arith, m));
    once = λ n. ground (
      arith,
      count-sort n (without_degree g.in_degree names),
      count-without_degree g.in_degree names n,
    );
    complete = λ n i z. ground (
      arith,
      i,
      z,
      count-sort n (without_degree g.in_degree names),
      count-without_degree g.in_degree names n,
    );
    earlier = refl;
  }

  abbrev turns : ℕ
  turns = length (sort (without_degree g.in_degree names)) + sum_of g.in_degree names

  pub sorted_names-is_order :
      (order : List ℕ) → sorted_names names g ≡ some order → Sorted names deps order
  unfolding sorted_names
  sorted_names-is_order order =
      kahn-IsSorting names deps g.dependents e.edges distinct listed turns g.in_degree
        (sort (without_degree g.in_degree names)) [] order start-IsSorting

  pub sorted_names-enough : sorted_names names g ≢ none
  unfolding sorted_names
  sorted_names-enough =
      kahn-enough names deps g.dependents e.edges distinct listed turns g.in_degree
        (sort (without_degree g.in_degree names)) [] start-IsSorting (omega arith)
