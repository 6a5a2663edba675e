-- ===== src/Scheduler/RunQueue/Least.antt =====
-- `pick_next_task`: the highest class that has a task, and there the least virtual run time.
use omniagent_os.Base.{
  ℕ, zero, suc, ◌+◌, ◌-◌, ◌≤◌, ◌<◌, ◌≡◌, ◌⊎◌, inl, inr, refl, ap, ◌∙◌, true, false, Option, none,
  some, [], ◌∷◌, arith, ◌==◌, if◌then◌else◌, length, get_or, set, get_or-set, length-set,
  Bool-cases, ℕ_discrete,
}
use omniagent_os.Base.Map.{
  Map, get, first_key_value, length-remove, remove-IsOrdered, first_key_value-get,
  first_key_value-least,
}
use omniagent_os.Scheduler.Priority.{u32, index, PriorityClass}
use omniagent_os.Scheduler.Task.{TaskControlBlock}
use omniagent_os.Scheduler.RunQueue.{
  PriorityTree, empty_tree, RunQueue, new, tree_at, without, dequeue_min, take_first, picked,
  pick_below, pick_next_task, update_min_vruntime, enqueue, enqueued, start_vruntime,
}
use omniagent_os.Scheduler.RunQueue.Collision.{IsCounted, Enqueues, tree_enqueue-Enqueues}

pub trees-update_min_vruntime : (q : RunQueue) → (update_min_vruntime q).trees ≡ q.trees
unfolding update_min_vruntime
trees-update_min_vruntime q = ground arith

pub current-update_min_vruntime : (q : RunQueue) → (update_min_vruntime q).current ≡ q.current
unfolding update_min_vruntime
current-update_min_vruntime q = ground arith

-- Five trees, each in key order with a counter that is right.
pub record IsWell (q : RunQueue) : Type 0 where
  pub size : length q.trees ≡ 5
  pub counts : (i : ℕ) → IsCounted (tree_at q i)

empty_slots :
    (i : ℕ)
    → get_or (empty_tree ∷ empty_tree ∷ empty_tree ∷ empty_tree ∷ empty_tree ∷ []) i empty_tree
      ≡ empty_tree
empty_slots zero = refl
empty_slots (suc zero) = refl
empty_slots (suc (suc zero)) = refl
empty_slots (suc (suc (suc zero))) = refl
empty_slots (suc (suc (suc (suc zero)))) = refl
empty_slots (suc (suc (suc (suc (suc i))))) = refl

pub new-IsWell : IsWell new
unfolding new
new-IsWell = record {
  size = omega arith;
  counts = λ i. rw (empty_slots i) (record { ordered = tt; counted = refl });
}

pub new-empty : (i : ℕ) → tree_at new i ≡ empty_tree
unfolding new
new-empty i = empty_slots i

pub without-IsCounted :
    (t : PriorityTree) (k id : ℕ) → get k t.tree ≡ some id → IsCounted t → IsCounted (without t k)
unfolding without
without-IsCounted t k id e c = record {
  ordered = remove-IsOrdered k t.tree c.ordered;
  counted = ground (arith, c.counted, length-remove k id t.tree c.ordered e);
}

-- One tree is replaced by another that is in order.
replaced-IsWell :
    (q r : RunQueue) (i : ℕ) (t : PriorityTree)
    → i < 5
    → IsWell q
    → IsCounted t
    → r.trees ≡ set q.trees i t
    → IsWell r
replaced-IsWell q r i t h v c e = record {
  size = rw e (length-set q.trees i t ∙ v.size);
  counts = λ j.
      rw (e, get_or-set q.trees i j t empty_tree (omega (arith, v.size)))
        (by_index j (Bool-cases (j == i)));
}
  where
    by_index :
        (j : ℕ)
        → ((j == i) ≡ true) ⊎ ((j == i) ≡ false)
        → IsCounted (if j == i then t else tree_at q j)
    by_index j (inl s) = rw s c
    by_index j (inr n) = rw n (v.counts j)

-- What a pick among the classes below n does.
abbrev pub Picks : ℕ → RunQueue → Option ℕ × RunQueue → Type 0
Picks n q (none, r) = (r ≡ q) × ((i : ℕ) → i < n → (tree_at q i).tree ≡ [])
Picks n q (some id, r) =
    (i : ℕ) × (k : ℕ) × (i < n)
    × (get k (tree_at q i).tree ≡ some id)
    × ((j : ℕ) → i < j → j < n → (tree_at q j).tree ≡ [])
    × ((l other : ℕ) → get l (tree_at q i).tree ≡ some other → k ≤ l)
    × ((j : ℕ) → tree_at r j ≡ (if j == i then without (tree_at q i) k else tree_at q j))
    × (r.current ≡ some id)
    × IsWell r

Picks-higher :
    (n : ℕ) (q : RunQueue) (r : Option ℕ × RunQueue)
    → (tree_at q n).tree ≡ []
    → Picks n q r
    → Picks (suc n) q r
Picks-higher n q (none, r) e (a, b) =
    (a, λ i h. elim (ℕ_discrete i n) [ yes s ↦ rw s e | no s ↦ b i (omega arith) ])
Picks-higher n q (some id, r) e (i, k, a, b, c, d, rest, now, w) = (
  i,
  k,
  omega arith,
  b,
  λ j g h. elim (ℕ_discrete j n) [ yes s ↦ rw s e | no s ↦ c j g (omega arith) ],
  d,
  rest,
  now,
  w,
)

picked-Picks :
    (n : ℕ) (q : RunQueue) (rest : Option ℕ × RunQueue) (o : Option (ℕ × ℕ))
    → n < 5
    → IsWell q
    → first_key_value (tree_at q n).tree ≡ o
    → Picks n q rest
    → Picks (suc n) q (picked q n rest (take_first (tree_at q n) o))
picked-Picks n q rest none h v e p = Picks-higher n q rest (nil_of_first (tree_at q n).tree e) p
  where
    nil_of_first : (m : Map ℕ) → first_key_value m ≡ none → m ≡ []
    nil_of_first [] f = refl
    nil_of_first (x ∷ m) f = absurd (cc f)
picked-Picks n q rest (some (k, id)) h v e p =
    let held = first_key_value-get k id (tree_at q n).tree e in
    let t = without (tree_at q n) k in
    let r = record q {
      trees = set q.trees n t;
      nr_running = q.nr_running - 1;
      current = some id;
    } in
    (
      n,
      k,
      omega arith,
      held,
      λ j g l. absurd (omega arith),
      λ l other g.
          omega
            (arith, first_key_value-least k id l other (tree_at q n).tree (v.counts n).ordered e g),
      λ j.
          ap (λ ts. get_or ts j empty_tree) (trees-update_min_vruntime r)
          ∙ get_or-set q.trees n j t empty_tree (omega (arith, v.size)),
      current-update_min_vruntime r,
      replaced-IsWell q (update_min_vruntime r) n t h v
          (without-IsCounted (tree_at q n) k id held (v.counts n)) (trees-update_min_vruntime r),
    )

pick_below-Picks : (n : ℕ) (q : RunQueue) → n ≤ 5 → IsWell q → Picks n q (pick_below n q)
unfolding pick_below dequeue_min
pick_below-Picks zero q h v = (refl, λ i l. elim l [ ])
pick_below-Picks (suc n) q h v =
    picked-Picks n q (pick_below n q) (first_key_value (tree_at q n).tree) (omega arith) v refl
      (pick_below-Picks n q (omega arith) v)

-- The next task is one with the least virtual run time in the highest class that has any; it
-- leaves that tree and becomes current, no other tree changes, and the queue stays well formed.
-- None is picked exactly when every tree is empty, and then nothing changes.
pub pick_next_task-Picks : (q : RunQueue) → IsWell q → Picks 5 q (pick_next_task q)
unfolding pick_next_task
pick_next_task-Picks q v = pick_below-Picks 5 q (omega arith) v

-- What adding a task does, by the result.
abbrev pub Adds : RunQueue → TaskControlBlock → Option RunQueue → Type 0
Adds q task none = Unit {0}
Adds q task (some r) =
    IsWell r
    × (r.current ≡ q.current)
    × (k : ℕ) × (get k (tree_at r (index task.sched_info.priority)).tree ≡ some task.id)
    × ((l : ℕ) (id : ℕ) (i : ℕ)
        → get l (tree_at q i).tree ≡ some id
        → get l (tree_at r i).tree ≡ some id)
    × ((l : ℕ) (id : ℕ) (i : ℕ)
        → get l (tree_at r i).tree ≡ some id
        → (get l (tree_at q i).tree ≡ some id)
          ⊎ ((id ≡ task.id) × (i ≡ index task.sched_info.priority)))

pub index-lt : (p : PriorityClass) → index p < 5
unfolding index
index-lt p = ground arith

enqueued-Adds :
    (q : RunQueue) (task : TaskControlBlock) (i v id w : ℕ) (o : Option PriorityTree)
    → i ≡ index task.sched_info.priority
    → id ≡ task.id
    → i < 5
    → IsWell q
    → Enqueues (tree_at q i) v id w o
    → Adds q task (enqueued q i o)
enqueued-Adds q task i v id w none e f h x p = tt
enqueued-Adds q task i v id w (some t) e f h x (k, which, free, gets, c) =
    let r = record q { trees = set q.trees i t; nr_running = u32 (q.nr_running + 1) } in
    let slots : (j : ℕ) → tree_at (update_min_vruntime r) j ≡ (if j == i then t else tree_at q j) =
      λ j.
        ap (λ ts. get_or ts j empty_tree) (trees-update_min_vruntime r)
        ∙ get_or-set q.trees i j t empty_tree (omega (arith, x.size)) in
    (
      replaced-IsWell q (update_min_vruntime r) i t h x c (trees-update_min_vruntime r),
      current-update_min_vruntime r,
      k,
      rw (← e, slots i, ← f) (ground (arith, gets k)),
      λ l other j g. elim (ℕ_discrete j i) [
        | yes s ↦ rw (slots j) (ground (arith, gets l, s, g, free, ap (tree_at q) s))
        | no s ↦ rw (slots j) (ground (arith, g))
      ],
      λ l other j g. elim (ℕ_discrete j i) [
        | yes s ↦ ground (arith, gets l, s, g, slots j, ap (tree_at q) s, e, f)
        | no s ↦ inl (ground (arith, g, slots j))
      ],
    )

-- When adding a task returns, the task is in the tree of its class, every task that was queued
-- still is, under its key, no other task has been added, the current task is the same and the queue
-- stays well formed.
pub enqueue-Adds :
    (q : RunQueue) (task : TaskControlBlock) → IsWell q → Adds q task (enqueue q task)
unfolding enqueue
enqueue-Adds q task v =
    let i = index task.sched_info.priority in
    enqueued-Adds q task i (start_vruntime q task) task.id task.sched_info.weight_of _ refl refl
      (index-lt task.sched_info.priority) v
      (tree_enqueue-Enqueues (tree_at q i) (start_vruntime q task) task.id task.sched_info.weight_of
        (v.counts i))
