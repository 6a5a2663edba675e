-- ===== src/Distributed/Replica/Invariant.antt =====
-- The replicas of a set: no element is both alive and removed, and their merges form a semilattice.
use omniagent_os.Base.{
  ℕ, ◌<◌, ◌≡◌, refl, ap, ap₂, ◌∙◌, false, ◌&&◌, ◌||◌, not, Option, none, some, [], ◌∷◌, ◌==◌, arith,
  Bool-cases, inl, inr,
}
use omniagent_os.Base.Map.{
  get, insert, remove, IsOrdered, Above, get-remove, insert-IsOrdered, remove-IsOrdered,
  IsOrdered-tail, map_ext,
}
use omniagent_os.Distributed.Convergence.{IsSemilattice}
use omniagent_os.Distributed.Replica.{
  HashSet, is_some, has, CrdtSet, add, remove_item, merge_tombstones, merge_items, retain, merge,
  contains,
}
use omniagent_os.Distributed.Replica.Merging.{
  has-insert, has_eq, has-merge_tombstones, contains-merge,
}

is_some-inj : (o p : Option (Unit {0})) → is_some o ≡ is_some p → o ≡ p
is_some-inj none none e = refl
is_some-inj none (some u) e = absurd (cc e)
is_some-inj (some u) none e = absurd (cc e)
is_some-inj (some u) (some v) e = refl

set_ext : (m n : HashSet) → IsOrdered m → IsOrdered n → ((x : ℕ) → has x m ≡ has x n) → m ≡ n
set_ext m n o p e = map_ext m n o p (λ x. is_some-inj (get x m) (get x n) (e x))

-- The elements that are alive are not among those removed.
pub record IsReplica (s : CrdtSet) : Type 0 where
  pub items_order : IsOrdered s.items
  pub tombs_order : IsOrdered s.tombstones
  pub alive : (x : ℕ) → (contains s x && has x s.tombstones) ≡ false

replica_ext :
    (a b : CrdtSet)
    → IsReplica a
    → IsReplica b
    → ((x : ℕ) → contains a x ≡ contains b x)
    → ((x : ℕ) → has x a.tombstones ≡ has x b.tombstones)
    → a ≡ b
unfolding contains
replica_ext a b p q e f =
    ap₂ (λ i t. record { items = i; tombstones = t })
      (set_ext a.items b.items p.items_order q.items_order e)
      (set_ext a.tombstones b.tombstones p.tombs_order q.tombs_order f)

merge_tombstones-IsOrdered :
    (tombs others : HashSet) → IsOrdered tombs → IsOrdered (merge_tombstones tombs others)
unfolding merge_tombstones
merge_tombstones-IsOrdered tombs [] o = o
merge_tombstones-IsOrdered tombs ((x, u) ∷ others) o =
    merge_tombstones-IsOrdered (insert x tt tombs) others (insert-IsOrdered x tt tombs o)

merge_items-IsOrdered :
    (tombs items others : HashSet) → IsOrdered items → IsOrdered (merge_items tombs items others)
unfolding merge_items
merge_items-IsOrdered tombs items [] o = o
merge_items-IsOrdered tombs items ((x, u) ∷ others) o = elim (Bool-cases (has x tombs)) [
  | inl y ↦ simp y (merge_items-IsOrdered tombs items others o)
  | inr n ↦
      simp n
        (merge_items-IsOrdered tombs (insert x tt items) others (insert-IsOrdered x tt items o))
]

retain-Above : (n : ℕ) (tombs items : HashSet) → Above n items → Above n (retain tombs items)
unfolding retain
retain-Above n tombs [] a = tt
retain-Above n tombs ((x, u) ∷ items) a = elim (Bool-cases (has x tombs)) [
  | inl y ↦ simp y (Above-lower n x (retain tombs items) a.0 (retain-Above x tombs items a.1))
  | inr m ↦ simp m (a.0, retain-Above x tombs items a.1)
]
  where
    Above-lower : (n x : ℕ) (m : HashSet) → n < x → Above x m → Above n m
    Above-lower n x [] h a = tt
    Above-lower n x ((j, u) ∷ m) h a = (omega (arith, h, a.0), a.1)

retain-IsOrdered : (tombs items : HashSet) → IsOrdered items → IsOrdered (retain tombs items)
unfolding retain
retain-IsOrdered tombs [] o = tt
retain-IsOrdered tombs ((x, u) ∷ items) o = elim (Bool-cases (has x tombs)) [
  | inl y ↦ simp y (retain-IsOrdered tombs items (IsOrdered-tail x u items o))
  | inr n ↦ simp n (retain-Above x tombs items o)
]

pub tombs-merge :
    (a b : CrdtSet) (x : ℕ)
    → has x (merge a b).tombstones ≡ (has x a.tombstones || has x b.tombstones)
unfolding merge
tombs-merge a b x = has-merge_tombstones x a.tombstones b.tombstones

pub merge-IsReplica : (a b : CrdtSet) → IsReplica a → IsReplica (merge a b)
unfolding merge
merge-IsReplica a b p = record {
  items_order =
      retain-IsOrdered (merge_tombstones a.tombstones b.tombstones)
        (merge_items (merge_tombstones a.tombstones b.tombstones) a.items b.items)
        (merge_items-IsOrdered (merge_tombstones a.tombstones b.tombstones) a.items b.items
          p.items_order);
  tombs_order = merge_tombstones-IsOrdered a.tombstones b.tombstones p.tombs_order;
  alive = λ x. alive_lem x (contains-merge a b x) (tombs-merge a b x);
}
  where
    alive_lem :
        (x : ℕ)
        → contains (merge a b) x
          ≡ ((contains a x || contains b x) && not (has x a.tombstones || has x b.tombstones))
        → has x (merge a b).tombstones ≡ (has x a.tombstones || has x b.tombstones)
        → (contains (merge a b) x && has x (merge a b).tombstones) ≡ false
    alive_lem x e f = simp e (simp f (ground arith))

pub add-IsReplica : (s : CrdtSet) (item : ℕ) → IsReplica s → IsReplica (add s item)
unfolding add contains
add-IsReplica s item p = elim (Bool-cases (has item s.tombstones)) [
  | inl y ↦ simp y p
  | inr n ↦ simp n (record {
    items_order = insert-IsOrdered item tt s.items p.items_order;
    tombs_order = p.tombs_order;
    alive =
        λ x. ground (arith, has-insert item x s.items, p.alive x, n, has_eq item x s.tombstones);
  })
]

has-remove : (k x : ℕ) (s : HashSet) → has x (remove k s) ≡ (not (k == x) && has x s)
has-remove k x s =
    ap is_some (get-remove k x s)
    ∙ elim (Bool-cases (k == x)) [ inl y ↦ simp y refl | inr n ↦ simp n refl ]

pub remove_item-IsReplica : (s : CrdtSet) (item : ℕ) → IsReplica s → IsReplica (remove_item s item)
unfolding remove_item contains
remove_item-IsReplica s item p = record {
  items_order = remove-IsOrdered item s.items p.items_order;
  tombs_order = insert-IsOrdered item tt s.tombstones p.tombs_order;
  alive = λ x. ground (arith, has-remove item x s.items, has-insert item x s.tombstones, p.alive x);
}

-- `merge` of replicas is closed, commutes, associates and is idempotent.
pub merge-IsReplicas : IsSemilattice IsReplica merge
merge-IsReplicas = record {
  closed = λ a b p q. merge-IsReplica a b p;
  commutes = λ a b p q.
      replica_ext (merge a b) (merge b a) (merge-IsReplica a b p) (merge-IsReplica b a q)
        (λ x. ground (arith, contains-merge a b x, contains-merge b a x))
        (λ x. ground (arith, tombs-merge a b x, tombs-merge b a x));
  associates = λ a b c p q r.
      replica_ext (merge (merge a b) c) (merge a (merge b c))
        (merge-IsReplica (merge a b) c (merge-IsReplica a b p)) (merge-IsReplica a (merge b c) p)
        (λ x. ground (
          arith,
          contains-merge (merge a b) c x,
          contains-merge a b x,
          contains-merge a (merge b c) x,
          contains-merge b c x,
          tombs-merge a b x,
          tombs-merge b c x,
        ))
        (λ x. ground (
          arith,
          tombs-merge (merge a b) c x,
          tombs-merge a b x,
          tombs-merge a (merge b c) x,
          tombs-merge b c x,
        ));
  repeats = λ a p.
      replica_ext (merge a a) a (merge-IsReplica a a p) p
        (λ x. ground (arith, contains-merge a a x, p.alive x))
        (λ x. ground (arith, tombs-merge a a x));
}
