-- ===== src/Distributed/Replica.antt =====
-- crates/omniagent-distributed/src/crdt.rs: CrdtSet. An element is its number; a set is a map from
-- its elements.
pub mod Merging
pub mod Invariant
pub mod Removal
use omniagent_os.Base.{
  ℕ, ◌≡◌, ◌≢◌, refl, sym, ap, ap₂, ◌∙◌, Bool, true, false, ◌&&◌, ◌||◌, not, Option, none, some,
  List, [], ◌∷◌, ◌==◌, length, is_empty, if◌then◌else◌, arith, Bool-cases, inl, inr,
}
use omniagent_os.Base.Map.{
  Map, get, insert, remove, IsOrdered, get-insert, get-remove, insert-IsOrdered, remove-IsOrdered,
  map_ext,
}
use omniagent_os.Distributed.Convergence.{IsSemilattice}

abbrev pub HashSet : Type 0
HashSet = Map (Unit {0})

abbrev pub is_some : Option (Unit {0}) → Bool
is_some none = false
is_some (some u) = true

abbrev pub has : ℕ → HashSet → Bool
has x s = is_some (get x s)

pub record CrdtSet : Type 0 where
  pub items : HashSet
  pub tombstones : HashSet

unfoldable pub new : CrdtSet
new = record { items = []; tombstones = [] }

unfoldable pub add : CrdtSet → ℕ → CrdtSet
add s item = if has item s.tombstones then s else record s { items = insert item tt s.items }

unfoldable pub remove_item : CrdtSet → ℕ → CrdtSet
remove_item s item = record {
  items = remove item s.items;
  tombstones = insert item tt s.tombstones;
}

-- The tombstones of the other.
unfoldable pub merge_tombstones : HashSet → HashSet → HashSet
merge_tombstones tombs [] = tombs
merge_tombstones tombs ((x, u) ∷ others) = merge_tombstones (insert x tt tombs) others

-- The items of the other without a tombstone.
unfoldable pub merge_items : HashSet → HashSet → HashSet → HashSet
merge_items tombs items [] = items
merge_items tombs items ((x, u) ∷ others) =
    merge_items tombs (if has x tombs then items else insert x tt items) others

-- `retain(|item| !tombstones.contains(item))`
unfoldable pub retain : HashSet → HashSet → HashSet
retain tombs [] = []
retain tombs ((x, u) ∷ items) =
    let rest = retain tombs items in if has x tombs then rest else (x, u) ∷ rest

unfoldable pub merge : CrdtSet → CrdtSet → CrdtSet
merge s other =
    let tombs = merge_tombstones s.tombstones other.tombstones in
    record { items = retain tombs (merge_items tombs s.items other.items); tombstones = tombs }

unfoldable pub contains : CrdtSet → ℕ → Bool
contains s item = has item s.items

pub len : CrdtSet → ℕ
len s = length s.items

pub is_empty_set : CrdtSet → Bool
is_empty_set s = is_empty s.items

pub tombstone_count : CrdtSet → ℕ
tombstone_count s = length s.tombstones
