-- ===== src/Scheduler/Global/Calls.antt =====
-- The scheduler's entry points as one step function, and runs of it.
use omniagent_os.Base.{ℕ, Bool, Option, none, some, List, [], ◌∷◌}
use omniagent_os.Scheduler.Priority.{PriorityClass}
use omniagent_os.Scheduler.Global.{
  Scheduler, init, create_task, enqueue, dequeue, pick_next, yield_now, sleep, wake_up, exit,
  schedule, timer_tick,
}

pub data Call : Type 0 where
  inits : Call
  creates : ℕ → ℕ → PriorityClass → Bool → Option ℕ → Call
  enqueues : ℕ → Call
  dequeues : ℕ → Call
  picks : Call
  yields : Call
  sleeps : ℕ → ℕ → Call
  wakes : ℕ → Call
  exits : ℕ → ℕ → Call
  schedules : Call
  ticks : Call

abbrev pub state_of {ℓ} : {A : Type ℓ} → Option (A × Scheduler) → Option Scheduler
state_of none = none
state_of (some (a, s)) = some s

unfoldable pub step : Scheduler → Call → Option Scheduler
step s inits = some (init s)
step s (creates entry stack_top priority is_user agent_handle) =
    some (create_task s entry stack_top priority is_user agent_handle).1
step s (enqueues id) = state_of (enqueue s id)
step s (dequeues id) = some (dequeue s id).1
step s picks = some (pick_next s).1
step s yields = yield_now s
step s (sleeps id channel) = some (sleep s id channel)
step s (wakes id) = wake_up s id
step s (exits id code) = some (exit s id code)
step s schedules = schedule s
step s ticks = some (timer_tick s)

unfoldable pub run : Option Scheduler → List Call → Option Scheduler
run none cs = none
run (some s) [] = some s
run (some s) (c ∷ cs) = run (step s c) cs
