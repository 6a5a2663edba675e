-- ===== src/Distributed/Replica/Removal.antt =====
-- Any calls on a replica of a set: an element that was removed stays so.
use omniagent_os.Base.{ℕ, ◌≡◌, true, false, List, [], ◌∷◌, arith, Bool-cases, inl, inr}
use omniagent_os.Distributed.Replica.{CrdtSet, has, add, remove_item, merge, contains}
use omniagent_os.Distributed.Replica.Merging.{has-insert}
use omniagent_os.Distributed.Replica.Invariant.{
  IsReplica, add-IsReplica, remove_item-IsReplica, merge-IsReplica, tombs-merge,
}

pub data SetCall : Type 0 where
  adds : ℕ → SetCall
  removes : ℕ → SetCall
  merges : CrdtSet → SetCall

abbrev pub set_call : CrdtSet → SetCall → CrdtSet
set_call s (adds item) = add s item
set_call s (removes item) = remove_item s item
set_call s (merges other) = merge s other

unfoldable pub set_calls : CrdtSet → List SetCall → CrdtSet
set_calls s [] = s
set_calls s (c ∷ cs) = set_calls (set_call s c) cs

set_call-IsReplica : (s : CrdtSet) (c : SetCall) → IsReplica s → IsReplica (set_call s c)
set_call-IsReplica s (adds item) h = add-IsReplica s item h
set_call-IsReplica s (removes item) h = remove_item-IsReplica s item h
set_call-IsReplica s (merges other) h = merge-IsReplica s other h

set_call-tombstones :
    (s : CrdtSet) (c : SetCall) (x : ℕ)
    → has x s.tombstones ≡ true
    → has x (set_call s c).tombstones ≡ true
unfolding add remove_item
set_call-tombstones s (adds item) x h = elim (Bool-cases (has item s.tombstones)) [
  | inl y ↦ simp y h
  | inr n ↦ simp n h
]
set_call-tombstones s (removes item) x h = ground (arith, has-insert item x s.tombstones, h)
set_call-tombstones s (merges other) x h = ground (arith, tombs-merge s other x, h)

removed :
    (cs : List SetCall) (s : CrdtSet) (x : ℕ)
    → IsReplica s
    → has x s.tombstones ≡ true
    → contains (set_calls s cs) x ≡ false
unfolding set_calls
removed [] s x h t = ground (arith, h.alive x, t)
removed (c ∷ cs) s x h t =
    removed cs (set_call s c) x (set_call-IsReplica s c h) (set_call-tombstones s c x t)

-- After an element is removed from a replica, no calls bring it back: neither its addition, nor a
-- merge with a replica that has it.
pub contains-remove_item :
    (s : CrdtSet) (item : ℕ) (cs : List SetCall)
    → IsReplica s
    → contains (set_calls (remove_item s item) cs) item ≡ false
unfolding remove_item
contains-remove_item s item cs h =
    removed cs (remove_item s item) item (remove_item-IsReplica s item h)
      (ground (arith, has-insert item item s.tombstones))
