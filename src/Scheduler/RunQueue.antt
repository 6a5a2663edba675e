-- ===== src/Scheduler/RunQueue.antt =====
-- kernel/src/scheduler/run_queue.rs: for each priority class a map from virtual run time to task,
-- and the queue that picks from the highest class. `none` as the result of an `enqueue` stands for
-- a call that does not return.
pub mod Collision
pub mod Least
pub mod Weights
pub mod Removal
use omniagent_os.Base.{
  ℕ, zero, suc, ◌+◌, ◌-◌, ◌%◌, ◌^◌, Bool, true, false, ◌&&◌, not, Option, none, some, List, [], ◌∷◌,
  ltb, ◌==◌, if◌then◌else◌, get_or, set,
}
use omniagent_os.Base.Map.{Map, get, insert, remove, first_key_value}
use omniagent_os.Scheduler.Priority.{index, u32, u64}
use omniagent_os.Scheduler.Task.{TaskControlBlock}

pub record PriorityTree : Type 0 where
  pub tree : Map ℕ
  pub nr_tasks : ℕ  -- u32
  pub total_weight : ℕ  -- u64

abbrev pub empty_tree : PriorityTree
empty_tree = record { tree = []; nr_tasks = 0; total_weight = 0 }

unfoldable pub contains_key : ℕ → Map ℕ → Bool
contains_key k m = elim (get k m) [ none ↦ false | some _ ↦ true ]

-- `while self.tree.contains_key(&key) { key = vruntime.wrapping_add(task_id & 0xFFFF) }`
unfoldable pub free_key : ℕ → Map ℕ → ℕ → ℕ → ℕ → Option ℕ
free_key zero tree vruntime task_id key = none
free_key (suc fuel) tree vruntime task_id key =
    let rest = free_key fuel tree vruntime task_id (u64 (vruntime + task_id % 65536)) in
    if contains_key key tree then rest else some key

unfoldable pub tree_insert : PriorityTree → ℕ → ℕ → ℕ → PriorityTree
tree_insert t key task_id weight = record t {
  tree = insert key task_id t.tree;
  nr_tasks = u32 (t.nr_tasks + 1);
  total_weight = u64 (t.total_weight + weight);
}

abbrev pub insert_at : PriorityTree → ℕ → ℕ → Option ℕ → Option PriorityTree
insert_at t task_id weight none = none
insert_at t task_id weight (some key) = some (tree_insert t key task_id weight)

-- Two rounds of the loop are enough, if any number is.
unfoldable pub tree_enqueue : PriorityTree → ℕ → ℕ → ℕ → Option PriorityTree
tree_enqueue t vruntime task_id weight =
    insert_at t task_id weight (free_key 2 t.tree vruntime task_id vruntime)

-- The tree without a key; `nr_tasks -= 1`.
unfoldable pub without : PriorityTree → ℕ → PriorityTree
without t key = record t { tree = remove key t.tree; nr_tasks = u32 (t.nr_tasks + 2 ^ 32 - 1) }

abbrev pub take_first : PriorityTree → Option (ℕ × ℕ) → Option ((ℕ × ℕ) × PriorityTree)
take_first t none = none
take_first t (some (key, task_id)) = some ((key, task_id), without t key)

unfoldable pub dequeue_min : PriorityTree → Option ((ℕ × ℕ) × PriorityTree)
dequeue_min t = take_first t (first_key_value t.tree)

-- `iter().find(|(_, &id)| id == task_id)`
unfoldable pub find_key : ℕ → Map ℕ → Option ℕ
find_key task_id [] = none
find_key task_id ((k, id) ∷ m) = if id == task_id then some k else find_key task_id m

abbrev pub take_key : PriorityTree → Option ℕ → Option (ℕ × PriorityTree)
take_key t none = none
take_key t (some key) = some (key, without t key)

unfoldable pub tree_remove : PriorityTree → ℕ → Option (ℕ × PriorityTree)
unfolding find_key
tree_remove t task_id = take_key t (find_key task_id t.tree)

pub record RunQueue : Type 0 where
  pub current : Option ℕ
  pub trees : List PriorityTree  -- [PriorityTree; 5]
  pub min_vruntime : ℕ
  pub nr_running : ℕ  -- u32

unfoldable pub new : RunQueue
new = record {
  current = none;
  trees = empty_tree ∷ empty_tree ∷ empty_tree ∷ empty_tree ∷ empty_tree ∷ [];
  min_vruntime = 0;
  nr_running = 0;
}

abbrev pub tree_at : RunQueue → ℕ → PriorityTree
tree_at q i = get_or q.trees i empty_tree

abbrev pub lower_key : ℕ → Option (ℕ × ℕ) → ℕ
lower_key least none = least
lower_key least (some (key, _)) = if ltb key least then key else least

-- The least first key, from `u64::MAX` down.
unfoldable pub least_key : ℕ → List PriorityTree → ℕ
least_key least [] = least
least_key least (t ∷ ts) = least_key (lower_key least (first_key_value t.tree)) ts

unfoldable pub update_min_vruntime : RunQueue → RunQueue
unfolding least_key
update_min_vruntime q =
    let least = least_key (2 ^ 64 - 1) q.trees in
    if not (least == 2 ^ 64 - 1) then record q { min_vruntime = least } else q

unfoldable pub start_vruntime : RunQueue → TaskControlBlock → ℕ
start_vruntime q task =
    if task.sched_info.vruntime == 0 && ltb 0 q.min_vruntime
    then q.min_vruntime
    else task.sched_info.vruntime

abbrev pub enqueued : RunQueue → ℕ → Option PriorityTree → Option RunQueue
enqueued q i none = none
enqueued q i (some t) = some (
    update_min_vruntime (record q { trees = set q.trees i t; nr_running = u32 (q.nr_running + 1) }))

unfoldable pub enqueue : RunQueue → TaskControlBlock → Option RunQueue
unfolding start_vruntime
enqueue q task =
    let i = index task.sched_info.priority in
    enqueued q i
      (tree_enqueue (tree_at q i) (start_vruntime q task) task.id task.sched_info.weight_of)

-- `if self.current == Some(task_id) { self.current = None }`
unfoldable pub clear_current : ℕ → Option ℕ → Option ℕ
clear_current task_id none = none
clear_current task_id (some c) = if c == task_id then none else some c

abbrev pub behind : PriorityTree → Option (List PriorityTree) → Option (List PriorityTree)
behind t none = none
behind t (some us) = some (t ∷ us)

abbrev pub removed_first :
    List PriorityTree
    → Option (List PriorityTree)
    → Option (ℕ × PriorityTree)
    → Option (List PriorityTree)
removed_first ts rest none = rest
removed_first ts rest (some (_, u)) = some (u ∷ ts)

-- The first tree that has the task, without it.
unfoldable pub remove_from : ℕ → List PriorityTree → Option (List PriorityTree)
unfolding tree_remove
remove_from task_id [] = none
remove_from task_id (t ∷ ts) =
    let rest = behind t (remove_from task_id ts) in removed_first ts rest (tree_remove t task_id)

abbrev pub dequeued : RunQueue → ℕ → Option (List PriorityTree) → RunQueue
dequeued q task_id none = q
dequeued q task_id (some ts) = update_min_vruntime (record q {
  trees = ts;
  nr_running = q.nr_running - 1;
  current = clear_current task_id q.current;
})

unfoldable pub dequeue : RunQueue → ℕ → RunQueue
dequeue q task_id = dequeued q task_id (remove_from task_id q.trees)

abbrev pub picked :
    RunQueue → ℕ → Option ℕ × RunQueue → Option ((ℕ × ℕ) × PriorityTree) → Option ℕ × RunQueue
picked q i rest none = rest
picked q i rest (some ((key, task_id), t)) = (
  some task_id,
  update_min_vruntime
      (record q { trees = set q.trees i t; nr_running = q.nr_running - 1; current = some task_id }),
)

-- `for i in (0..n).rev()`, up to its `return`.
pub pick_below : ℕ → RunQueue → Option ℕ × RunQueue
pick_below zero q = (none, q)
pick_below (suc i) q = let rest = pick_below i q in picked q i rest (dequeue_min (tree_at q i))

unfoldable pub pick_next_task : RunQueue → Option ℕ × RunQueue
unfolding pick_below
pick_next_task q = pick_below 5 q

unfoldable pub set_current : RunQueue → Option ℕ → RunQueue
set_current q task_id = record q { current = task_id }

unfoldable pub total_weight : List PriorityTree → ℕ
total_weight [] = 0
total_weight (t ∷ ts) = u64 (t.total_weight + total_weight ts)
