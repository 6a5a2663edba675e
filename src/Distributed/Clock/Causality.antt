-- ===== src/Distributed/Clock/Causality.antt =====
-- What `compare` tells of two clocks, and what `merge` and `increment` do to it.
use omniagent_os.Base.{
  ℕ, ◌+◌, ◌^◌, ◌≤◌, ◌<◌, max, ◌≡◌, ◌≢◌, refl, sym, ap, ◌∙◌, subst, Bool, true, false, ◌||◌, none,
  some, [], ◌∷◌, ◌==◌, ltb, arith, Bool-cases, inl, inr, ◌⊎◌, ℕ_discrete, Option-cases, ap₂,
}
use omniagent_os.Base.Map.{Map, get, IsOrdered, get-insert}
use omniagent_os.Distributed.Counts.{
  count, or_zero, increment_count, merge_counts-IsOrdered, merge_counts_comm, merge_counts_assoc,
  merge_counts_idem, count-merge_counts, count-increment_count,
}
use omniagent_os.Distributed.Convergence.{IsSemilattice}
use omniagent_os.Distributed.Clock.{
  VectorClock, CausalOrder, before, after, concurrent, equal, increment, merge, get_count,
  all_nodes, scan, causal, compare,
}

-- The order of two clocks, by their counts at every node.
pub data Causal (a b : VectorClock) : CausalOrder → Type 0 where
  is_equal : ((n : ℕ) → get_count a n ≡ get_count b n) → Causal a b equal
  is_before :
      ((n : ℕ) → get_count a n ≤ get_count b n)
      → (n : ℕ) → get_count a n < get_count b n
      → Causal a b before
  is_after :
      ((n : ℕ) → get_count b n ≤ get_count a n)
      → (n : ℕ) → get_count b n < get_count a n
      → Causal a b after
  is_concurrent :
      (n m : ℕ)
      → get_count a n < get_count b n
      → get_count b m < get_count a m
      → Causal a b concurrent

-- Every node of either clock is among those compared.
get-all_nodes :
    (n : ℕ) (es others : Map ℕ)
    → get n (all_nodes es others) ≡ none
    → (get n es ≡ none) × (get n others ≡ none)
unfolding get
get-all_nodes n [] [] h = (refl, refl)
get-all_nodes n [] ((k, v) ∷ others) h =
    ground (arith, get-insert k n tt (all_nodes [] others), get-all_nodes n [] others, h)
get-all_nodes n ((k, v) ∷ es) others h =
    ground (arith, get-insert k n tt (all_nodes es others), get-all_nodes n es others, h)

-- Some node has less in the first clock.
abbrev some_less : Map ℕ → Map ℕ → Map (Unit {0}) → Bool
some_less es others [] = false
some_less es others ((k, u) ∷ nodes) =
    ltb (count k es) (count k others) || some_less es others nodes

scan-some_less :
    (es others : Map ℕ) (nodes : Map (Unit {0})) (l g : Bool)
    → scan es others nodes (l, g) ≡ (l || some_less es others nodes, g || some_less others es nodes)
scan-some_less es others [] l g = ap₂ (λ a b. (a, b)) (at l) (at g)
  where
    at : (b : Bool) → b ≡ (b || false)
    at true = refl
    at false = refl
scan-some_less es others ((k, u) ∷ nodes) l g =
    elim (Bool-cases (ltb (count k es) (count k others))) [
      | inl y ↦
          let other : ltb (count k others) (count k es) ≡ false = ground (arith, y) in
          simp y (
            simp other (
              scan-some_less es others nodes true g
              ∙ ap (λ a. (a, g || some_less others es nodes)) (sym (or_true l))))
      | inr n ↦ elim (Bool-cases (ltb (count k others) (count k es))) [
        | inl y ↦ simp n (
            simp y (
              scan-some_less es others nodes l true
              ∙ ap (λ a. (l || some_less es others nodes, a)) (sym (or_true g))))
        | inr m ↦ simp n (simp m (scan-some_less es others nodes l g))
      ]
    ]
  where
    or_true : (b : Bool) → (b || true) ≡ true
    or_true true = refl
    or_true false = refl

some_less-found :
    (es others : Map ℕ) (nodes : Map (Unit {0}))
    → some_less es others nodes ≡ true
    → (n : ℕ) × (count n es < count n others)
some_less-found es others [] = λ h. absurd (cc h)
some_less-found es others ((k, u) ∷ nodes) = elim (Bool-cases (ltb (count k es) (count k others))) [
  | inl y ↦ λ h. (k, ground (arith, y))
  | inr n ↦ simp n (λ h. some_less-found es others nodes h)
]

some_less-none :
    (es others : Map ℕ) (nodes : Map (Unit {0})) (n : ℕ)
    → some_less es others nodes ≡ false
    → get n nodes ≢ none
    → count n others ≤ count n es
unfolding get
some_less-none es others [] n h g = absurd (g refl)
some_less-none es others ((k, u) ∷ nodes) n h g = elim (ℕ_discrete k n) [
  | yes e ↦
      let no_less : ltb (count k es) (count k others) ≡ false = ground (arith, h) in
      subst (λ x. count x others ≤ count x es) e (ground (arith, no_less))
  | no d ↦
      let away : (k == n) ≡ false = ground (arith, d) in
      let others_too : some_less es others nodes ≡ false = ground (arith, h) in
      some_less-none es others nodes n others_too (λ z. g (simp away z))
]

-- A node that is not compared has no count in either clock.
compared :
    (a b : Map ℕ) (n : ℕ) → (get n (all_nodes a b) ≢ none) ⊎ ((count n a ≡ 0) × (count n b ≡ 0))
unfolding count
compared a b n = elim (Option-cases (get n (all_nodes a b))) [
  | inl e ↦ let (mine, theirs) = get-all_nodes n a b e in inr (ap or_zero mine, ap or_zero theirs)
  | inr (u, e) ↦ inl (λ z. let bad : none ≡ some u = sym z ∙ e in absurd (cc bad))
]

module _ (a b : Map ℕ) (n : ℕ) where
  none_less : some_less a b (all_nodes a b) ≡ false → count n b ≤ count n a
  none_less h = elim (compared a b n) [
    | inl c ↦ some_less-none a b (all_nodes a b) n h c
    | inr (x, y) ↦ omega (arith, x, y)
  ]

  none_more : some_less b a (all_nodes a b) ≡ false → count n a ≤ count n b
  none_more h = elim (compared a b n) [
    | inl c ↦ some_less-none b a (all_nodes a b) n h c
    | inr (x, y) ↦ omega (arith, x, y)
  ]

-- The result of `compare` is the order of the clocks: equal if every node has the same count in
-- both, before (after) if no node has more (less) and some node has less (more) in the first one,
-- and concurrent if some node has less and some node has more.
pub compare-Causal : (a b : VectorClock) → Causal a b (compare a b)
unfolding compare get_count
compare-Causal a b =
    simp (scan-some_less a.entries b.entries (all_nodes a.entries b.entries) false false)
      (at (some_less a.entries b.entries nodes) (some_less b.entries a.entries nodes) refl refl)
  where
    nodes : Map (Unit {0})
    nodes = all_nodes a.entries b.entries

    at :
        (l g : Bool)
        → some_less a.entries b.entries nodes ≡ l
        → some_less b.entries a.entries nodes ≡ g
        → Causal a b (causal (l, g))
    at false false e f =
        is_equal
          (λ n. omega (arith, none_less a.entries b.entries n e, none_more a.entries b.entries n f))
    at true false e f =
        let (n, lt) = some_less-found a.entries b.entries nodes e in
        is_before (λ k. none_more a.entries b.entries k f) n lt
    at false true e f =
        let (n, lt) = some_less-found b.entries a.entries nodes f in
        is_after (λ k. none_less a.entries b.entries k e) n lt
    at true true e f =
        let (n, lt) = some_less-found a.entries b.entries nodes e in
        let (m, gt) = some_less-found b.entries a.entries nodes f in is_concurrent n m lt gt

Causal-before :
    (a b : VectorClock) (o : CausalOrder) (n : ℕ)
    → Causal a b o
    → ((k : ℕ) → get_count a k ≤ get_count b k)
    → get_count a n < get_count b n
    → o ≡ before
Causal-before a b equal n (is_equal e) le lt = absurd (omega (arith, e n, lt))
Causal-before a b before n (is_before le' m lt') le lt = refl
Causal-before a b after n (is_after ge m gt) le lt = absurd (omega (arith, ge n, lt))
Causal-before a b concurrent n (is_concurrent k m l g) le lt = absurd (omega (arith, le m, g))

counted :
    (k node : ℕ) (es : Map ℕ)
    → count node es + 1 < 2 ^ 64
    → count k es ≤ count k (increment_count node es)
counted k node es h = elim (ℕ_discrete node k) [
  | yes e ↦
      let here : (node == k) ≡ true = ground (arith, e) in
      let same : count node es ≡ count k es = ap (λ x. count x es) e in
      let now = count-increment_count node k es in simp now (simp here (omega (arith, h, same)))
  | no d ↦
      let away : (node == k) ≡ false = ground (arith, d) in
      let now = count-increment_count node k es in simp now (simp away (omega arith))
]

-- A clock whose count of a node is not at its greatest is before the clock that is incremented at
-- that node.
pub compare-increment :
    (c : VectorClock) (node : ℕ)
    → get_count c node + 1 < 2 ^ 64
    → compare c (increment c node) ≡ before
unfolding increment get_count
compare-increment c node h =
    let here : (node == node) ≡ true = ground arith in
    Causal-before c (increment c node) (compare c (increment c node)) node
      (compare-Causal c (increment c node)) (λ k. counted k node c.entries h)
      (simp (count-increment_count node node c.entries) (simp here (omega (arith, h))))

-- A node has one count.
abbrev pub IsClock : VectorClock → Type 0
IsClock c = IsOrdered c.entries

abbrev clock : Map ℕ → VectorClock
clock es = record { entries = es }

-- `merge` of clocks is closed, commutes, associates and is idempotent.
pub merge-IsSemilattice : IsSemilattice IsClock merge
unfolding merge
merge-IsSemilattice = record {
  closed = λ a b o p. merge_counts-IsOrdered a.entries b.entries o;
  commutes = λ a b o p. ap clock (merge_counts_comm a.entries b.entries o p);
  associates = λ a b c o p q. ap clock (merge_counts_assoc a.entries b.entries c.entries o p q);
  repeats = λ a o. ap clock (merge_counts_idem a.entries o);
}

-- The merge of two clocks has, at each node, the greater of their counts.
pub get_count-merge :
    (a b : VectorClock) (n : ℕ)
    → IsClock b
    → get_count (merge a b) n ≡ max (get_count a n) (get_count b n)
unfolding merge get_count
get_count-merge a b n p = count-merge_counts a.entries b.entries n p
