-- ===== src/Scheduler/Global.antt =====
-- kernel/src/scheduler/scheduler.rs: the scheduler that owns the task table and the run queue.
-- `none` stands for a call that does not return, since adding to the run queue may spin. Task ids
-- are handed out from 1; they wrap, as do the statistics.
pub mod Calls
pub mod Sound
pub mod Soundness
pub mod Entries
pub mod Running
pub mod Slices
pub mod Keeping
pub mod Refills
pub mod Leaving
pub mod Ticks
mod Examples
use Prim.Native.String.{String}
use omniagent_os.Base.{
  ℕ, ◌+◌, ◌-◌, Bool, true, false, ◌&&◌, ◌||◌, not, Option, none, some, [], ltb, if◌then◌else◌,
  Result, ok, err,
}
use omniagent_os.Base.Bits.{is_bit_set, set_bit, clear_bit}
use omniagent_os.Base.Map.{Map, get, insert, update}
use omniagent_os.Scheduler.Priority.{PriorityClass, idle, u64, update_vruntime}
use omniagent_os.Scheduler.Task.{
  TaskState, ready, running, blocked, zombie, is_state, can_transition, need_resched, exited,
  is_idle, TaskControlBlock, new_task,
}
use omniagent_os.Scheduler.RunQueue.{RunQueue, pick_next_task}
use omniagent_os.Scheduler.RunQueue

pub data SchedulerError : Type 0 where
  invalid_task_id : ℕ → SchedulerError
  invalid_state_transition : TaskState → TaskState → SchedulerError
  run_queue_full : SchedulerError
  already_enqueued : ℕ → SchedulerError
  not_enqueued : ℕ → SchedulerError
  context_switch_failed : String → SchedulerError
  invalid_priority_class : ℕ → SchedulerError
  task_not_found : ℕ → SchedulerError
  no_current_task : SchedulerError
  queue_empty : SchedulerError

pub record Scheduler : Type 0 where
  pub run_queue : RunQueue
  pub tasks : Map TaskControlBlock
  pub next_task_id : ℕ
  pub idle_task_id : Option ℕ
  pub total_schedules : ℕ
  pub context_switches : ℕ
  pub preemptions : ℕ

pub new : Scheduler
new = record {
  run_queue = RunQueue.new;
  tasks = [];
  next_task_id = 1;
  idle_task_id = none;
  total_schedules = 0;
  context_switches = 0;
  preemptions = 0;
}

-- Creates the idle task, ready but in no queue.
pub init : Scheduler → Scheduler
init s =
    let id = s.next_task_id in
    let task = new_task id 0 0 idle false none in
    let idle_task = record task { flags = set_bit task.flags is_idle; state = ready } in
    record s {
      next_task_id = u64 (id + 1);
      tasks = insert id idle_task s.tasks;
      idle_task_id = some id;
    }

pub create_task :
    Scheduler → ℕ → ℕ → PriorityClass → Bool → Option ℕ → Result ℕ SchedulerError × Scheduler
create_task s entry stack_top priority is_user agent_handle =
    let id = s.next_task_id in
    (
      ok id,
      record s {
        next_task_id = u64 (id + 1);
        tasks = insert id (new_task id entry stack_top priority is_user agent_handle) s.tasks;
      },
    )

-- A task that `get_mut` found, written back.
abbrev pub put : Scheduler → ℕ → TaskControlBlock → Scheduler
put s id task = record s { tasks = update id (λ _. task) s.tasks }

abbrev pub with_queue : Scheduler → Option RunQueue → Option Scheduler
with_queue s none = none
with_queue s (some q) = some (record s { run_queue = q })

-- `task.state = Ready; self.run_queue.enqueue(&task.clone())`
pub make_ready : Scheduler → ℕ → TaskControlBlock → Option Scheduler
make_ready s id task =
    let t = record task { state = ready } in
    with_queue (put s id t) (RunQueue.enqueue s.run_queue t)

abbrev pub returning {ℓ} :
    {A : Type ℓ}
    → Result A SchedulerError
    → Option Scheduler
    → Option (Result A SchedulerError × Scheduler)
returning r none = none
returning r (some s) = some (r, s)

abbrev pub enqueue_found :
    Scheduler → ℕ → Option TaskControlBlock → Option (Result (Unit {0}) SchedulerError × Scheduler)
enqueue_found s id none = some (err (task_not_found id), s)
enqueue_found s id (some task) =
    if not (can_transition task.state ready)
    then some (err (invalid_state_transition task.state ready), s)
    else returning (ok tt) (make_ready s id task)

pub enqueue : Scheduler → ℕ → Option (Result (Unit {0}) SchedulerError × Scheduler)
unfolding make_ready
enqueue s id = enqueue_found s id (get id s.tasks)

abbrev pub dequeue_found :
    Scheduler → ℕ → Option TaskControlBlock → Result (Unit {0}) SchedulerError × Scheduler
dequeue_found s id none = (err (task_not_found id), s)
dequeue_found s id (some task) =
    if not (is_state task.state ready) && not (is_state task.state running)
    then (err (not_enqueued id), s)
    else (
      ok tt,
      record s {
        run_queue = RunQueue.dequeue s.run_queue id;
        tasks = update id (λ t. record t { state = ready }) s.tasks;
      },
    )

pub dequeue : Scheduler → ℕ → Result (Unit {0}) SchedulerError × Scheduler
dequeue s id = dequeue_found s id (get id s.tasks)

abbrev pub pick_found : Scheduler → Option ℕ × RunQueue → Option ℕ × Scheduler
pick_found s (none, q) = (none, record s { run_queue = q })
pick_found s (some id, q) = (
  some id,
  record s { run_queue = q; tasks = update id (λ t. record t { state = running }) s.tasks },
)

pub pick_next : Scheduler → Option ℕ × Scheduler
pick_next s = pick_found s (pick_next_task s.run_queue)

-- The end of `yield_now` and of `schedule`: the next task runs, and a switch is counted.
abbrev pub switch_found : Scheduler → Option ℕ × RunQueue → Scheduler
switch_found s (none, q) = record s { run_queue = q }
switch_found s (some id, q) = record s {
  run_queue = q;
  tasks = update id (λ t. record t { state = running }) s.tasks;
  context_switches = elim (get id s.tasks) [
    | none ↦ s.context_switches
    | some _ ↦ u64 (s.context_switches + 1)
  ];
}

pub switch : Scheduler → Scheduler
switch s = switch_found s (pick_next_task s.run_queue)

abbrev pub set_current : Scheduler → Option ℕ → Scheduler
set_current s c = record s { run_queue = RunQueue.set_current s.run_queue c }

abbrev pub map_some : (Scheduler → Scheduler) → Option Scheduler → Option Scheduler
map_some f none = none
map_some f (some s) = some (f s)

-- The first half of `yield_now`: a running current task goes back into its queue.
abbrev pub put_back : Scheduler → Option ℕ → Option TaskControlBlock → Option Scheduler
put_back s none found = some s
put_back s (some c) none = some s
put_back s (some c) (some task) =
    if is_state task.state running
    then map_some (λ r. set_current r none) (make_ready s c task)
    else some s

-- `self.tasks.get_mut(&current.0)`
abbrev pub current_of : Scheduler → Option ℕ → Option TaskControlBlock
current_of s none = none
current_of s (some c) = get c s.tasks

pub yield_now : Scheduler → Option Scheduler
unfolding make_ready switch
yield_now s = map_some switch (put_back s s.run_queue.current (current_of s s.run_queue.current))

abbrev pub sleep_found : Scheduler → ℕ → ℕ → Option TaskControlBlock → Scheduler
sleep_found s id channel none = s
sleep_found s id channel (some task) =
    if is_state task.state running || is_state task.state ready
    then record s {
      tasks = update id (λ _. record task { state = blocked; wait_channel = channel }) s.tasks;
      run_queue = RunQueue.dequeue s.run_queue id;
    }
    else s

pub sleep : Scheduler → ℕ → ℕ → Scheduler
sleep s id channel = sleep_found s id channel (get id s.tasks)

abbrev pub wake_found : Scheduler → ℕ → Option TaskControlBlock → Option Scheduler
wake_found s id none = some s
wake_found s id (some task) =
    if is_state task.state blocked
    then make_ready s id (record task { wait_channel = 0 })
    else some s

pub wake_up : Scheduler → ℕ → Option Scheduler
unfolding make_ready
wake_up s id = wake_found s id (get id s.tasks)

abbrev pub exit_found : Scheduler → ℕ → ℕ → Option TaskControlBlock → Scheduler
exit_found s id exit_code none = s
exit_found s id exit_code (some task) = record s {
  tasks =
      update id
        (λ _. record task {
          state = zombie;
          exit_code = exit_code;
          flags = set_bit task.flags exited;
        })
        s.tasks;
  run_queue = RunQueue.dequeue s.run_queue id;
}

pub exit : Scheduler → ℕ → ℕ → Scheduler
exit s id exit_code = exit_found s id exit_code (get id s.tasks)

-- No current task, a current task that is not in the table, or one with the flag set.
abbrev pub must_switch : Option TaskControlBlock → Bool
must_switch none = true
must_switch (some task) = is_bit_set task.flags need_resched

-- `schedule` puts a running current task back and counts a preemption.
abbrev pub preempt : Scheduler → Option ℕ → Option TaskControlBlock → Option Scheduler
preempt s none found = some s
preempt s (some c) none = some (set_current s none)
preempt s (some c) (some task) =
    if is_state task.state running
    then map_some (λ r. set_current (record r { preemptions = u64 (r.preemptions + 1) }) none)
        (make_ready s c (record task { flags = clear_bit 64 task.flags need_resched }))
    else some (set_current s none)

pub schedule : Scheduler → Option Scheduler
unfolding make_ready switch
schedule s =
    let counted = record s { total_schedules = u64 (s.total_schedules + 1) } in
    let c = s.run_queue.current in
    if must_switch (current_of s c)
    then map_some switch (preempt counted c (current_of s c))
    else some counted

abbrev pub delta_ns : ℕ
delta_ns = 1_000_000

-- One millisecond of run time is charged to a running task.
pub charge : TaskControlBlock → TaskControlBlock
charge task =
    let info = update_vruntime task.sched_info delta_ns in
    let spent = record task {
      sched_info = record info { time_slice_remain = info.time_slice_remain - delta_ns };
    } in
    let over = record task {
      sched_info = record info { time_slice_remain = 0 };
      flags = set_bit task.flags need_resched;
    } in
    if ltb delta_ns info.time_slice_remain then spent else over

abbrev pub tick_found : Scheduler → Option ℕ → Option TaskControlBlock → Scheduler
tick_found s none found = s
tick_found s (some c) none = s
tick_found s (some c) (some task) = if is_state task.state running then put s c (charge task) else s

pub timer_tick : Scheduler → Scheduler
timer_tick s = tick_found s s.run_queue.current (current_of s s.run_queue.current)
