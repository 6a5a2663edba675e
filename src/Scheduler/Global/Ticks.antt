-- ===== src/Scheduler/Global/Ticks.antt =====
-- How the timer uses up the time slice of the running task.
use omniagent_os.Base.{
  ℕ, zero, suc, ◌+◌, ◌-◌, ◌*◌, ◌≤◌, ◌<◌, ◌≡◌, refl, sym, ap, ◌∙◌, true, some, arith, if◌then◌else◌,
  subst,
}
use omniagent_os.Base.Bits.{is_bit_set, is_bit_set-set_bit}
use omniagent_os.Base.Map.{get, get-update}
use omniagent_os.Scheduler.Priority.{update_vruntime}
use omniagent_os.Scheduler.Task.{running, is_state, need_resched, TaskControlBlock}
use omniagent_os.Scheduler.Global.{Scheduler, charge, timer_tick, tick_found, put, current_of}

pub timer_ticks : ℕ → Scheduler → Scheduler
timer_ticks zero s = s
timer_ticks (suc n) s = timer_ticks n (timer_tick s)

-- The task with this id is current and runs.
pub record Runs (s : Scheduler) (c : ℕ) (task : TaskControlBlock) : Type 0 where
  pub is_current : s.run_queue.current ≡ some c
  pub found : get c s.tasks ≡ some task
  pub is_running : task.state ≡ running

charge-state : (task : TaskControlBlock) → (charge task).state ≡ task.state
unfolding charge
charge-state task = ground arith

tick-Runs :
    (s : Scheduler) (c : ℕ) (task : TaskControlBlock)
    → Runs s c task
    → Runs (timer_tick s) c (charge task)
unfolding timer_tick is_state
tick-Runs s c task r =
    let moved : timer_tick s ≡ put s c (charge task) =
      ap (λ o. tick_found s o (current_of s o)) r.is_current
      ∙ ap (tick_found s (some c)) r.found
      ∙ ap (λ t. if is_state t running then put s c (charge task) else s) r.is_running in
    subst (λ u. Runs u c (charge task)) (sym moved)
      (record {
        is_current = r.is_current;
        found = ground (arith, get-update c c (λ _. charge task) s.tasks, r.found);
        is_running = charge-state task ∙ r.is_running;
      })

charge-slice :
    (task : TaskControlBlock)
    → 1_000_000 < task.sched_info.time_slice_remain
    → ((charge task).sched_info.time_slice_remain ≡ task.sched_info.time_slice_remain - 1_000_000)
      × ((charge task).flags ≡ task.flags)
unfolding charge update_vruntime
charge-slice task h = ground arith

charge-last :
    (task : TaskControlBlock)
    → task.sched_info.time_slice_remain ≤ 1_000_000
    → is_bit_set (charge task).flags need_resched ≡ true
unfolding charge update_vruntime
charge-last task h = ground (arith, is_bit_set-set_bit task.flags need_resched need_resched)

-- A task that runs with k + 1 milliseconds of its slice left keeps its flags for k ticks, and is
-- marked for rescheduling by the next one.
pub timer_ticks-preempt :
    (k : ℕ) (s : Scheduler) (c : ℕ) (task : TaskControlBlock)
    → Runs s c task
    → task.sched_info.time_slice_remain ≡ (k + 1) * 1_000_000
    → (t : TaskControlBlock) × Runs (timer_ticks k s) c t
      × (t.flags ≡ task.flags)
      × (u : TaskControlBlock) × Runs (timer_tick (timer_ticks k s)) c u
      × (is_bit_set u.flags need_resched ≡ true)
unfolding timer_ticks
timer_ticks-preempt zero s c task r e =
    (task, r, refl, charge task, tick-Runs s c task r, charge-last task (omega arith))
timer_ticks-preempt (suc k) s c task r e =
    let (less, same) = charge-slice task (omega arith) in
    let (t, now, flags, u, later, marked) =
      timer_ticks-preempt k (timer_tick s) c (charge task) (tick-Runs s c task r) (omega arith) in
    (t, now, flags ∙ same, u, later, marked)
