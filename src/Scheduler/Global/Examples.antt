-- ===== src/Scheduler/Global/Examples.antt =====
-- Runs of the scheduler, and the theorems at what they reach.
use omniagent_os.Base.{
  subst, false, ◌<◌, ◌^◌, ◌+◌, ◌≤◌, ◌≡◌, refl, true, Option, none, some, List, [], ◌∷◌, arith,
}
use omniagent_os.Base.Bits.{is_bit_set}
use omniagent_os.Base.Map.{get, insert, update, remove}
use omniagent_os.Scheduler.Priority.{
  normal, realtime, agent, index, weight, update_vruntime, base_time_slice_ns, from_u8, u64,
}
use omniagent_os.Scheduler.Priority
use omniagent_os.Scheduler.Task.{
  running, zombie, need_resched, TaskControlBlock, new_task, can_transition,
}
use omniagent_os.Scheduler.RunQueue.{
  RunQueue, PriorityTree, tree_at, empty_tree, tree_insert, tree_enqueue, free_key, contains_key,
  pick_next_task, remove_from, start_vruntime, update_min_vruntime, least_key, pick_below,
  dequeue_min, without, find_key, tree_remove, total_weight,
}
use omniagent_os.Scheduler.RunQueue
use omniagent_os.Scheduler.RunQueue.Least.{IsWell, Picks, pick_next_task-Picks}
use omniagent_os.Scheduler.Global.{
  Scheduler, new, create_task, enqueue, pick_next, exit, timer_tick,
}
use omniagent_os.Scheduler.Global.Calls.{Call, creates, enqueues, schedules, ticks, run, step}
use omniagent_os.Scheduler.Global.Ticks.{Runs, timer_ticks, timer_ticks-preempt}
use omniagent_os.Scheduler.Global.Refills.{run-slice}
use omniagent_os.Scheduler.Global.Slices.{IsFresh}
use omniagent_os.Scheduler.Global.Leaving.{exit-schedule, IsUnqueued}
use omniagent_os.Scheduler.Global.Sound.{IsSound, IsSound?}
use omniagent_os.Scheduler.Global.Soundness.{pick_next-IsSound}
use omniagent_os.Scheduler.RunQueue.Removal.{Removes, remove_from-Removes}
use omniagent_os.Scheduler.Global.Running.{pick_next-Running, Running, run-IsSound, new-IsSound}

-- Task 2 at virtual time 0, and task 9 at the key that task 2 would move to.
abbrev crowded : PriorityTree
crowded = record { tree = (0, 2) ∷ (2, 9) ∷ []; nr_tasks = 2; total_weight = 2048 }

-- A second enqueue of task 2 at virtual time 0 never returns.
tree_enqueue_spins : tree_enqueue crowded 0 2 1024 ≡ none
unfolding tree_enqueue free_key contains_key get
tree_enqueue_spins = refl

abbrev task : TaskControlBlock
task = new_task 1 0x1000 0x8000 normal true none

abbrev state_or_new : Option Scheduler → Scheduler
state_or_new none = new
state_or_new (some s) = s

abbrev boot_calls : List Call
boot_calls =
    creates 0x1000 0x8000 normal true none
    ∷ creates 0x2000 0x9000 normal true none
    ∷ enqueues 1
    ∷ enqueues 2
    ∷ []

-- Two tasks, both ready.
abbrev booted : Scheduler
booted = state_or_new (run (some new) boot_calls)

booted_runs : run (some new) boot_calls ≡ some booted
unfolding run step new create_task enqueue new_task Priority.new can_transition RunQueue.new
    RunQueue.enqueue tree_enqueue tree_insert free_key contains_key get insert update index
    update_min_vruntime least_key start_vruntime
booted_runs = refl

-- The first of them has been chosen.
abbrev started : Scheduler
started = (pick_next booted).1

pick_next-Running_example : Running started 1
unfolding run step new create_task enqueue new_task Priority.new can_transition RunQueue.new
    RunQueue.enqueue tree_enqueue tree_insert free_key contains_key get insert update index
    update_min_vruntime least_key start_vruntime pick_next pick_next_task dequeue_min without remove
pick_next-Running_example = pick_next-Running boot_calls booted started 1 booted_runs refl

abbrev chosen : TaskControlBlock
chosen = record (new_task 1 0x1000 0x8000 normal true none) { state = running }

started-Runs : Runs started 1 chosen
unfolding run step new create_task enqueue new_task Priority.new can_transition RunQueue.new
    RunQueue.enqueue tree_enqueue tree_insert free_key contains_key get insert update index
    update_min_vruntime least_key start_vruntime pick_next pick_next_task dequeue_min without remove
started-Runs = record { is_current = refl; found = refl; is_running = refl }

timer_ticks-preempt_example :
    (t : TaskControlBlock) × Runs (timer_ticks 4 started) 1 t
    × (t.flags ≡ chosen.flags)
    × (u : TaskControlBlock) × Runs (timer_tick (timer_ticks 4 started)) 1 u
    × (is_bit_set u.flags need_resched ≡ true)
unfolding new_task Priority.new base_time_slice_ns update_vruntime
timer_ticks-preempt_example = timer_ticks-preempt 4 started 1 chosen started-Runs refl

booted-IsSound : IsSound booted
booted-IsSound = subst IsSound? booted_runs (run-IsSound (some new) boot_calls new-IsSound)

pick_next_task-Picks_example : Picks 5 booted.run_queue (pick_next_task booted.run_queue)
pick_next_task-Picks_example = pick_next_task-Picks booted.run_queue booted-IsSound.well

started-IsWell : IsWell started.run_queue
started-IsWell = (pick_next-IsSound booted booted-IsSound).well

started_unqueued : remove_from 1 started.run_queue.trees ≡ none
unfolding run step new create_task enqueue new_task Priority.new can_transition RunQueue.new
    RunQueue.enqueue tree_enqueue tree_insert free_key contains_key get insert update index
    update_min_vruntime least_key start_vruntime pick_next pick_next_task dequeue_min without remove
    remove_from tree_remove find_key
started_unqueued = refl

started-IsUnqueued : IsUnqueued started 1
started-IsUnqueued i k e =
    subst (Removes started.run_queue.trees 1) started_unqueued
      (remove_from-Removes 1 started.run_queue.trees started-IsWell.counts) i k 1 e refl

exit-schedule_example :
    (u : Scheduler) × (run (some (exit started 1 0)) (schedules ∷ ticks ∷ schedules ∷ []) ≡ some u)
    × (u.run_queue ≡ started.run_queue)
    × (u.run_queue.current ≡ some 1)
    × (u.tasks ≡ (exit started 1 0).tasks)
    × ((z : TaskControlBlock) × (get 1 u.tasks ≡ some z) × (z.state ≡ zombie))
unfolding new_task is_bit_set
exit-schedule_example =
    exit-schedule started 1 0 chosen (true ∷ false ∷ true ∷ []) started-Runs started-IsWell
      started-IsUnqueued refl

started-IsFresh : IsFresh started
unfolding run step new create_task enqueue new_task Priority.new can_transition RunQueue.new
    RunQueue.enqueue tree_enqueue tree_insert free_key contains_key get insert update index
    update_min_vruntime least_key start_vruntime pick_next pick_next_task dequeue_min without remove
started-IsFresh id h = ground arith

started_ids : started.next_task_id + 1 < 2 ^ 64
unfolding run step new create_task enqueue new_task Priority.new can_transition RunQueue.new
    RunQueue.enqueue tree_enqueue tree_insert free_key contains_key get insert update index
    update_min_vruntime least_key start_vruntime pick_next pick_next_task dequeue_min without remove
started_ids = omega arith

run-slice_example :
    (now : TaskControlBlock) × (get 1 (timer_tick started).tasks ≡ some now)
    × (now.sched_info.time_slice_remain ≤ chosen.sched_info.time_slice_remain)
unfolding run step
run-slice_example =
    run-slice started (timer_tick started) (ticks ∷ []) 1 chosen started-IsFresh started_ids refl
      started-Runs.found
