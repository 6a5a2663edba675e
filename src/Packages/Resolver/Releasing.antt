-- ===== src/Packages/Resolver/Releasing.antt =====
-- One turn of the topological sort: the edges of a package that is installed are taken away, and
-- what has no edge left becomes ready, once.
use omniagent_os.Base.{
  ℕ, suc, ◌+◌, ◌≤◌, ◌<◌, min, ◌≡◌, refl, ap, ◌∙◌, true, List, [], ◌∷◌, ◌++◌, ◌==◌, leb,
  if◌then◌else◌, length, length-append, arith, Bool-cases, inl, inr,
}
use omniagent_os.Packages.Resolver.{contains, insert_name, sort, one_less, release, sum_of}
use omniagent_os.Packages.Resolver.Graphs.{count, count-append, contains-counted}

count-insert_name : (n x : ℕ) (ys : List ℕ) → count n (insert_name x ys) ≡ count n (x ∷ ys)
count-insert_name n x [] = refl
count-insert_name n x (y ∷ ys) = elim (Bool-cases (leb x y)) [
  | inl h ↦ simp h refl
  | inr h ↦ simp h (omega (arith, count-insert_name n x ys))
]

pub count-sort : (n : ℕ) (xs : List ℕ) → count n (sort xs) ≡ count n xs
count-sort n [] = refl
count-sort n (x ∷ xs) = omega (arith, count-insert_name n x (sort xs), count-sort n xs)

length-insert_name : (x : ℕ) (ys : List ℕ) → length (insert_name x ys) ≡ suc (length ys)
length-insert_name x [] = refl
length-insert_name x (y ∷ ys) = elim (Bool-cases (leb x y)) [
  | inl h ↦ simp h refl
  | inr h ↦ simp h (ap suc (length-insert_name x ys))
]

pub length-sort : (xs : List ℕ) → length (sort xs) ≡ length xs
length-sort [] = refl
length-sort (x ∷ xs) = length-insert_name x (sort xs) ∙ ap suc (length-sort xs)

abbrev pub drop_edge : (ℕ → ℕ) → ℕ → ℕ → ℕ
drop_edge degree x y = if y == x then one_less (degree y) else degree y

abbrev pub made_ready : (ℕ → ℕ) → ℕ → List ℕ → List ℕ
made_ready degree x ready = if one_less (degree x) == 0 then sort (ready ++ (x ∷ [])) else ready

count-made_ready :
    (degree : ℕ → ℕ) (x : ℕ) (ready : List ℕ) (n : ℕ)
    → count n (made_ready degree x ready)
      ≡ count n ready + (if one_less (degree x) == 0 then (if x == n then 1 else 0) else 0)
count-made_ready degree x ready n = elim (Bool-cases (one_less (degree x) == 0)) [
  | inl y ↦ simp y (omega (arith, count-sort n (ready ++ (x ∷ [])), count-append n ready (x ∷ [])))
  | inr k ↦ simp k (omega arith)
]

-- What the release of a list of neighbours does, each with at least as many edges as the list has
-- it, where what is ready has no edges.
pub record Releases (xs : List ℕ) (degree : ℕ → ℕ) (ready : List ℕ) (degree' : ℕ → ℕ)
    (ready' : List ℕ) : Type 0 where
  pub fewer : (n : ℕ) → degree' n + count n xs ≡ degree n
  pub free : (n : ℕ) → 0 < count n ready' → degree' n ≡ 0
  pub added : (n : ℕ) → count n ready' ≤ count n ready + min (degree n) 1
  pub kept : (n : ℕ) → count n ready ≤ count n ready'
  pub freed : (n : ℕ) → 0 < degree n → degree' n ≡ 0 → 0 < count n ready'

pub release-Releases :
    (xs : List ℕ) (degree : ℕ → ℕ) (ready : List ℕ)
    → ((n : ℕ) → count n xs ≤ degree n)
    → ((n : ℕ) → 0 < count n ready → degree n ≡ 0)
    → Releases xs degree ready (release xs degree ready).0 (release xs degree ready).1
unfolding release
release-Releases [] degree ready h r = record {
  fewer = λ n. omega arith;
  free = λ n. r n;
  added = λ n. omega arith;
  kept = λ n. omega arith;
  freed = λ n h z. absurd (omega (arith, h, z));
}
release-Releases (x ∷ xs) degree ready h r =
    let here : (x == x) ≡ true = ground arith in
    let some_edge : 0 < degree x = ground (arith, h x) in
    let rest =
      release-Releases xs (drop_edge degree x) (made_ready degree x ready)
        (λ n. ground (arith, h n, some_edge))
        (λ n m. ground (arith, h n, r n, m, some_edge, count-made_ready degree x ready n)) in
    record {
      fewer = λ n. ground (arith, rest.fewer n, some_edge);
      free = rest.free;
      added = λ n. ground (arith, rest.added n, count-made_ready degree x ready n, some_edge);
      kept = λ n. ground (arith, rest.kept n, count-made_ready degree x ready n);
      freed = λ n d z.
          ground
            (arith, d, z, rest.freed n, rest.kept n, count-made_ready degree x ready n, some_edge);
    }

sum_of-drop_edge :
    (x : ℕ) (names : List ℕ) (degree : ℕ → ℕ)
    → 0 < degree x
    → (if contains x names then 1 else 0) + sum_of (drop_edge degree x) names ≤ sum_of degree names
unfolding contains
sum_of-drop_edge x [] degree h = omega arith
sum_of-drop_edge x (y ∷ names) degree h = ground (arith, sum_of-drop_edge x names degree h, h)

-- What becomes ready is paid for by the edges that are taken away.
pub length-release :
    (xs : List ℕ) (degree : ℕ → ℕ) (ready names : List ℕ)
    → ((n : ℕ) → count n xs ≤ degree n)
    → ((n : ℕ) → 0 < count n xs → 0 < count n names)
    → length (release xs degree ready).1 + sum_of (release xs degree ready).0 names
      ≤ length ready + sum_of degree names
unfolding release
length-release [] degree ready names h l = omega arith
length-release (x ∷ xs) degree ready names h l =
    let here : (x == x) ≡ true = ground arith in
    let some_edge : 0 < degree x = ground (arith, h x) in
    let mine : contains x names ≡ true = contains-counted x names (l x (ground arith)) in
    let less = sum_of-drop_edge x names degree some_edge in
    let grown : length (made_ready degree x ready) ≤ suc (length ready) =
      ground (arith, length-sort (ready ++ (x ∷ [])), length-append ready (x ∷ [])) in
    let rest =
      length-release xs (drop_edge degree x) (made_ready degree x ready) names
        (λ n. ground (arith, h n, some_edge)) (λ n m. l n (ground (arith, m))) in
    let paid : 1 + sum_of (drop_edge degree x) names ≤ sum_of degree names =
      ground (arith, less, mine) in
    omega (arith, rest, grown, paid)
