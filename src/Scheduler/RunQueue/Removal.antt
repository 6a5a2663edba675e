-- ===== src/Scheduler/RunQueue/Removal.antt =====
-- Taking a task out of the run queue.
use omniagent_os.Base.{
  ℕ, zero, suc, ◌≡◌, inl, inr, refl, sym, ap, ◌∙◌, subst, Option, none, some, List, [], ◌∷◌, arith,
  ◌==◌, length, get_or, Bool-cases, ◌≢◌, ◌-◌,
}
use omniagent_os.Base.Map.{Map, get, get-remove, IsOrdered, IsOrdered-tail, get-tail}
use omniagent_os.Scheduler.RunQueue.{
  PriorityTree, empty_tree, RunQueue, tree_at, without, find_key, tree_remove, take_key,
  remove_from, removed_first, behind, dequeue, dequeued, clear_current,
}
use omniagent_os.Scheduler.RunQueue.Collision.{IsCounted}
use omniagent_os.Scheduler.RunQueue.Least.{IsWell, without-IsCounted, trees-update_min_vruntime}

find_key-get : (id k : ℕ) (m : Map ℕ) → IsOrdered m → find_key id m ≡ some k → get k m ≡ some id
unfolding find_key get
find_key-get id k [] o e = absurd (cc e)
find_key-get id k ((j, v) ∷ m) o e = elim (Bool-cases (v == id)) [
  | inl y ↦ ground arith
  | inr n ↦ get-tail j k v id m o (find_key-get id k m (IsOrdered-tail j v m o) (sym (rw n) ∙ e))
]

find_key-none : (id k v : ℕ) (m : Map ℕ) → find_key id m ≡ none → get k m ≡ some v → v ≢ id
unfolding find_key get
find_key-none id k v [] e g = absurd (cc g)
find_key-none id k v ((j, w) ∷ m) e g = ground (arith, find_key-none id k v m)

-- The trees of the second list have no task that the first has not, in the same places.
pub record Shrinks (ts us : List PriorityTree) : Type 0 where
  pub same_length : length us ≡ length ts
  pub counts :
      ((j : ℕ) → IsCounted (get_or ts j empty_tree)) → (j : ℕ) → IsCounted (get_or us j empty_tree)
  pub entries :
      (j k id : ℕ)
      → get k (get_or us j empty_tree).tree ≡ some id
      → get k (get_or ts j empty_tree).tree ≡ some id

Shrinks-refl : (ts : List PriorityTree) → Shrinks ts ts
Shrinks-refl ts = record { same_length = refl; counts = λ c. c; entries = λ j k id e. e }

-- What a removal of id from a list of trees does.
abbrev pub Removes : List PriorityTree → ℕ → Option (List PriorityTree) → Type 0
Removes ts id none = (j k v : ℕ) → get k (get_or ts j empty_tree).tree ≡ some v → v ≢ id
Removes ts id (some us) =
    Shrinks ts us
    × (j : ℕ) × (k : ℕ) × (get k (get_or ts j empty_tree).tree ≡ some id)
    × (get k (get_or us j empty_tree).tree ≡ none)

behind-Removes :
    (t : PriorityTree) (ts : List PriorityTree) (id : ℕ) (o : Option (List PriorityTree))
    → find_key id t.tree ≡ none
    → Removes ts id o
    → Removes (t ∷ ts) id (behind t o)
behind-Removes t ts id none e h = by_index
  where
    by_index : (j k v : ℕ) → get k (get_or (t ∷ ts) j empty_tree).tree ≡ some v → v ≢ id
    by_index zero k v g = find_key-none id k v t.tree e g
    by_index (suc j) k v g = h j k v g
behind-Removes t ts id (some us) e (s, j, k, was, is) = (
  record { same_length = ap suc s.same_length; counts = counts; entries = entries },
  suc j,
  k,
  was,
  is,
)
  where
    counts :
        ((j : ℕ) → IsCounted (get_or (t ∷ ts) j empty_tree))
        → (j : ℕ) → IsCounted (get_or (t ∷ us) j empty_tree)
    counts c zero = c zero
    counts c (suc j) = s.counts (λ i. c (suc i)) j

    entries :
        (j k id : ℕ)
        → get k (get_or (t ∷ us) j empty_tree).tree ≡ some id
        → get k (get_or (t ∷ ts) j empty_tree).tree ≡ some id
    entries zero k id g = g
    entries (suc j) k id g = s.entries j k id g

first-Removes :
    (t : PriorityTree) (ts : List PriorityTree) (id k : ℕ)
    → get k t.tree ≡ some id
    → Removes (t ∷ ts) id (some (without t k ∷ ts))
first-Removes t ts id k e = (
  record { same_length = refl; counts = counts; entries = entries },
  zero,
  k,
  e,
  unfold without in get-remove k k t.tree ∙ ground arith,
)
  where
    counts :
        ((j : ℕ) → IsCounted (get_or (t ∷ ts) j empty_tree))
        → (j : ℕ) → IsCounted (get_or (without t k ∷ ts) j empty_tree)
    counts c zero = without-IsCounted t k id e (c zero)
    counts c (suc j) = c (suc j)

    entries :
        (j l other : ℕ)
        → get l (get_or (without t k ∷ ts) j empty_tree).tree ≡ some other
        → get l (get_or (t ∷ ts) j empty_tree).tree ≡ some other
    entries zero l other g = unfold without in ground (arith, get-remove k l t.tree, g)
    entries (suc j) l other g = g

pub remove_from-Removes :
    (id : ℕ) (ts : List PriorityTree)
    → ((j : ℕ) → IsCounted (get_or ts j empty_tree))
    → Removes ts id (remove_from id ts)
unfolding remove_from tree_remove
remove_from-Removes id [] c = λ j k v g. absurd (unfold get in cc g)
remove_from-Removes id (t ∷ ts) c =
    by_key (find_key id t.tree) refl (remove_from-Removes id ts (λ j. c (suc j)))
  where
    by_key :
        (o : Option ℕ)
        → find_key id t.tree ≡ o
        → Removes ts id (remove_from id ts)
        → Removes (t ∷ ts) id (removed_first ts (behind t (remove_from id ts)) (take_key t o))
    by_key none e h = behind-Removes t ts id (remove_from id ts) e h
    by_key (some k) e h = first-Removes t ts id k (find_key-get id k t.tree (c zero).ordered e)

-- What `dequeue` of the run queue does.
pub record Dequeues (q r : RunQueue) (id : ℕ) : Type 0 where
  pub well : IsWell r
  pub entries :
      (j k other : ℕ)
      → get k (tree_at r j).tree ≡ some other
      → get k (tree_at q j).tree ≡ some other

dequeued-Dequeues :
    (q : RunQueue) (id : ℕ) (o : Option (List PriorityTree))
    → IsWell q
    → Removes q.trees id o
    → Dequeues q (dequeued q id o) id
dequeued-Dequeues q id none v h = record { well = v; entries = λ j k other e. e }
dequeued-Dequeues q id (some ts) v (s, j, k, was, is) =
    let r = record q {
      trees = ts;
      nr_running = q.nr_running - 1;
      current = clear_current id q.current;
    } in
    let same = trees-update_min_vruntime r in
    record {
      well = record {
        size = rw same (s.same_length ∙ v.size);
        counts = λ j. rw same (s.counts v.counts j);
      };
      entries = λ j k other e.
          s.entries j k other
            (subst (λ us. get k (get_or us j empty_tree).tree ≡ some other) same e);
    }

-- Removing a task keeps the queue well formed and adds nothing to any tree.
pub dequeue-Dequeues : (q : RunQueue) (id : ℕ) → IsWell q → Dequeues q (dequeue q id) id
unfolding dequeue
dequeue-Dequeues q id v =
    dequeued-Dequeues q id (remove_from id q.trees) v (remove_from-Removes id q.trees v.counts)
