-- ===== src/Distributed/Replica/Merging.antt =====
-- What a merged set contains, and the laws of the merge.
use omniagent_os.Base.{
  ℕ, ◌≡◌, refl, ap, ◌∙◌, true, ◌&&◌, ◌||◌, not, [], ◌∷◌, ◌==◌, arith, Bool-cases, inl, inr,
}
use omniagent_os.Base.Map.{get, insert, get-insert}
use omniagent_os.Distributed.Replica.{
  HashSet, is_some, has, CrdtSet, merge_tombstones, merge_items, retain, merge, contains,
}

pub has-insert : (k x : ℕ) (s : HashSet) → has x (insert k tt s) ≡ ((k == x) || has x s)
has-insert k x s =
    ap is_some (get-insert k x tt s)
    ∙ elim (Bool-cases (k == x)) [ inl y ↦ simp y refl | inr n ↦ simp n refl ]

pub has-merge_tombstones :
    (x : ℕ) (tombs others : HashSet)
    → has x (merge_tombstones tombs others) ≡ (has x tombs || has x others)
unfolding merge_tombstones get
has-merge_tombstones x tombs [] = ground arith
has-merge_tombstones x tombs ((k, u) ∷ others) =
    ground (arith, has-merge_tombstones x (insert k tt tombs) others, has-insert k x tombs)

pub has_eq : (k x : ℕ) (s : HashSet) → (k == x) ≡ true → has k s ≡ has x s
has_eq k x s e = let same : k ≡ x = ground (arith, e) in ap (λ y. has y s) same

has-merge_items :
    (x : ℕ) (tombs items others : HashSet)
    → has x (merge_items tombs items others) ≡ (has x items || (has x others && not (has x tombs)))
unfolding merge_items get
has-merge_items x tombs items [] = ground arith
has-merge_items x tombs items ((k, u) ∷ others) = elim (Bool-cases (has k tombs)) [
  | inl y ↦ simp y (has-merge_items x tombs items others ∙ ground (arith, has_eq k x tombs, y))
  | inr n ↦ simp n (
      has-merge_items x tombs (insert k tt items) others
      ∙ ground (arith, has-insert k x items, has_eq k x tombs, n))
]

has-retain :
    (x : ℕ) (tombs items : HashSet)
    → has x (retain tombs items) ≡ (has x items && not (has x tombs))
unfolding retain get
has-retain x tombs [] = refl
has-retain x tombs ((k, u) ∷ items) = elim (Bool-cases (has k tombs)) [
  | inl y ↦ simp y (ground (arith, has-retain x tombs items, has_eq k x tombs, y))
  | inr n ↦ simp n (ground (arith, has-retain x tombs items, has_eq k x tombs, n))
]

-- A merged set contains what either set contains, if neither has a tombstone for it.
pub contains-merge :
    (a b : CrdtSet) (x : ℕ)
    → contains (merge a b) x
      ≡ ((contains a x || contains b x) && not (has x a.tombstones || has x b.tombstones))
unfolding contains merge
contains-merge a b x =
    let tombs = merge_tombstones a.tombstones b.tombstones in
    has-retain x tombs (merge_items tombs a.items b.items)
    ∙ ground (
      arith,
      has-merge_items x tombs a.items b.items,
      has-merge_tombstones x a.tombstones b.tombstones,
    )
