-- ===== src/Distributed/Counts.antt =====
-- crates/omniagent-distributed/src/crdt.rs: what VectorClock and CrdtCounter do with the count of
-- each node. A count wraps past 64 bits.
use omniagent_os.Base.{
  ℕ_discrete, Bool-cases, inl, inr, true, false, subst, ℕ, ◌+◌, ◌%◌, ◌^◌, max, ◌≡◌, refl, sym, ap,
  ap₂, ◌∙◌, Option, none, some, [], ◌∷◌, ◌==◌, if◌then◌else◌, arith,
}
use omniagent_os.Base.Map.{
  Map, get, insert, IsOrdered, get-insert, insert-IsOrdered, IsOrdered-tail, get-head, map_ext,
}

-- `.copied().unwrap_or(0)`
abbrev pub or_zero : Option ℕ → ℕ
or_zero none = 0
or_zero (some n) = n

unfoldable pub count : ℕ → Map ℕ → ℕ
count node es = or_zero (get node es)

unfoldable pub increment_count : ℕ → Map ℕ → Map ℕ
increment_count node es = insert node ((count node es + 1) % 2 ^ 64) es

unfoldable pub merge_counts : Map ℕ → Map ℕ → Map ℕ
merge_counts es [] = es
merge_counts es ((node, value) ∷ others) =
    merge_counts (insert node (max (count node es) value) es) others

-- The greater of two counts, where a node may have none.
abbrev pub join : Option ℕ → Option ℕ → Option ℕ
join none y = y
join (some a) none = some a
join (some a) (some b) = some (max a b)

pub join_comm : (x y : Option ℕ) → join x y ≡ join y x
join_comm none none = refl
join_comm none (some b) = refl
join_comm (some a) none = refl
join_comm (some a) (some b) = let e : max a b ≡ max b a = omega arith in ap some e

pub join_assoc : (x y z : Option ℕ) → join (join x y) z ≡ join x (join y z)
join_assoc none y z = refl
join_assoc (some a) none z = refl
join_assoc (some a) (some b) none = refl
join_assoc (some a) (some b) (some c) =
    let e : max (max a b) c ≡ max a (max b c) = omega arith in ap some e

pub join_idem : (x : Option ℕ) → join x x ≡ x
join_idem none = refl
join_idem (some a) = let e : max a a ≡ a = omega arith in ap some e

pub or_zero-join : (x y : Option ℕ) → or_zero (join x y) ≡ max (or_zero x) (or_zero y)
or_zero-join none y = omega arith
or_zero-join (some a) none = omega arith
or_zero-join (some a) (some b) = refl

join_value : (o : Option ℕ) (v : ℕ) → join (some (max (or_zero o) v)) none ≡ join o (some v)
join_value none v = let e : max 0 v ≡ v = omega arith in ap some e
join_value (some a) v = refl

join-insert :
    (k n v : ℕ) (es others : Map ℕ)
    → get k others ≡ none
    → join (get n (insert k (max (count k es) v) es)) (get n others)
      ≡ join (get n es) (if k == n then some v else get n others)
unfolding count
join-insert k n v es others h = elim (ℕ_discrete k n) [
  | yes e ↦
      let here : (k == n) ≡ true = ground (arith, e) in
      let none_there : get n others ≡ none = subst (λ x. get x others ≡ none) e h in
      let found : get k es ≡ get n es = ap (λ x. get x es) e in
      ap₂ join (get-insert k n (max (count k es) v) es) none_there
      ∙ simp here (simp found (join_value (get n es) v))
  | no d ↦
      let away : (k == n) ≡ false = ground (arith, d) in
      ap (λ o. join o (get n others)) (get-insert k n (max (count k es) v) es) ∙ simp away refl
]

pub get-merge_counts :
    (n : ℕ) (es others : Map ℕ)
    → IsOrdered others
    → get n (merge_counts es others) ≡ join (get n es) (get n others)
unfolding merge_counts get
get-merge_counts n es [] o = join_comm none (get n es)
get-merge_counts n es ((k, v) ∷ others) o =
    get-merge_counts n (insert k (max (count k es) v) es) others (IsOrdered-tail k v others o)
    ∙ join-insert k n v es others (get-head k v others o)

pub merge_counts-IsOrdered : (es others : Map ℕ) → IsOrdered es → IsOrdered (merge_counts es others)
unfolding merge_counts
merge_counts-IsOrdered es [] o = o
merge_counts-IsOrdered es ((k, v) ∷ others) o =
    merge_counts-IsOrdered (insert k (max (count k es) v) es) others
      (insert-IsOrdered k (max (count k es) v) es o)

-- Two merges that hold the same at every node are equal.
pub merge_counts_comm :
    (a b : Map ℕ) → IsOrdered a → IsOrdered b → merge_counts a b ≡ merge_counts b a
merge_counts_comm a b o p =
    map_ext (merge_counts a b) (merge_counts b a) (merge_counts-IsOrdered a b o)
      (merge_counts-IsOrdered b a p)
      (λ n.
        get-merge_counts n a b p ∙ join_comm (get n a) (get n b) ∙ sym (get-merge_counts n b a o))

pub merge_counts_assoc :
    (a b c : Map ℕ)
    → IsOrdered a
    → IsOrdered b
    → IsOrdered c
    → merge_counts (merge_counts a b) c ≡ merge_counts a (merge_counts b c)
merge_counts_assoc a b c o p q =
    map_ext (merge_counts (merge_counts a b) c) (merge_counts a (merge_counts b c))
      (merge_counts-IsOrdered (merge_counts a b) c (merge_counts-IsOrdered a b o))
      (merge_counts-IsOrdered a (merge_counts b c) o)
      (λ n.
        get-merge_counts n (merge_counts a b) c q
        ∙ ap (λ x. join x (get n c)) (get-merge_counts n a b p)
        ∙ join_assoc (get n a) (get n b) (get n c)
        ∙ ap (join (get n a)) (sym (get-merge_counts n b c q))
        ∙ sym (get-merge_counts n a (merge_counts b c) (merge_counts-IsOrdered b c p)))

pub merge_counts_idem : (a : Map ℕ) → IsOrdered a → merge_counts a a ≡ a
merge_counts_idem a o =
    map_ext (merge_counts a a) a (merge_counts-IsOrdered a a o) o
      (λ n. get-merge_counts n a a o ∙ join_idem (get n a))

pub count-merge_counts :
    (a b : Map ℕ) (n : ℕ) → IsOrdered b → count n (merge_counts a b) ≡ max (count n a) (count n b)
unfolding count
count-merge_counts a b n p =
    ap or_zero (get-merge_counts n a b p) ∙ or_zero-join (get n a) (get n b)

pub count-increment_count :
    (k n : ℕ) (es : Map ℕ)
    → count n (increment_count k es) ≡ (if k == n then (count k es + 1) % 2 ^ 64 else count n es)
unfolding increment_count count
count-increment_count k n es =
    ap or_zero (get-insert k n ((count k es + 1) % 2 ^ 64) es)
    ∙ elim (Bool-cases (k == n)) [ inl y ↦ simp y refl | inr m ↦ simp m refl ]
