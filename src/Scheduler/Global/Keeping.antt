-- ===== src/Scheduler/Global/Keeping.antt =====
-- What each call of the scheduler keeps of the time slices.
use omniagent_os.Base.{
  ℕ, ◌+◌, ◌≤◌, ◌≡◌, inl, inr, refl, Option, none, some, arith, Bool-cases, not, ◌&&◌, ◌||◌, ok,
}
use omniagent_os.Base.Map.{get}
use omniagent_os.Scheduler.Priority.{update_vruntime, u64}
use omniagent_os.Scheduler.Task.{
  TaskControlBlock, running, ready, blocked, is_state, can_transition,
}
use omniagent_os.Scheduler.RunQueue.{RunQueue, pick_next_task}
use omniagent_os.Scheduler.RunQueue
use omniagent_os.Scheduler.Global.{
  Scheduler, charge, timer_tick, tick_found, put, current_of, enqueue, enqueue_found, dequeue,
  dequeue_found, pick_next, pick_found, yield_now, sleep, sleep_found, wake_up, wake_found, exit,
  exit_found, schedule, preempt, put_back, make_ready, switch, switch_found, map_some, with_queue,
  returning, must_switch, set_current,
}
use omniagent_os.Scheduler.Global.Calls.{state_of}
use omniagent_os.Scheduler.Global.Slices.{Keeps, Keeps-refl, Keeps-trans, Keeps-same, update-Keeps}

-- A call that does not return has no state to speak of.
abbrev pub Keeps? : Scheduler → Option Scheduler → Type 0
Keeps? s none = Unit {0}
Keeps? s (some u) = Keeps s u

pub make_ready-Keeps :
    (s : Scheduler) (id : ℕ) (t task : TaskControlBlock)
    → get id s.tasks ≡ some t
    → task.sched_info.time_slice_remain ≤ t.sched_info.time_slice_remain
    → Keeps? s (make_ready s id task)
unfolding make_ready
make_ready-Keeps s id t task e same =
    after (RunQueue.enqueue s.run_queue (record task { state = ready }))
  where
    after :
        (o : Option RunQueue) → Keeps? s (with_queue (put s id (record task { state = ready })) o)
    after none = tt
    after (some q) =
        update-Keeps s _ id (λ _. record task { state = ready }) refl refl (λ u f. ground arith)

pub switch-Keeps : (s : Scheduler) → Keeps s (switch s)
unfolding switch
switch-Keeps s = after (pick_next_task s.run_queue)
  where
    after : (r : Option ℕ × RunQueue) → Keeps s (switch_found s r)
    after (none, q) = Keeps-same s _ refl refl
    after (some id, q) =
        update-Keeps s _ id (λ t. record t { state = running }) refl refl (λ t f. omega arith)

pub map_some-Keeps :
    (s : Scheduler) (f : Scheduler → Scheduler) (o : Option Scheduler)
    → ((u : Scheduler) → Keeps u (f u))
    → Keeps? s o
    → Keeps? s (map_some f o)
map_some-Keeps s f none h k = tt
map_some-Keeps s f (some u) h k = Keeps-trans s u (f u) k (h u)

pub put_back-Keeps :
    (s : Scheduler) (c : Option ℕ) (found : Option TaskControlBlock)
    → current_of s c ≡ found
    → Keeps? s (put_back s c found)
put_back-Keeps s none found e = Keeps-refl s
put_back-Keeps s (some c) none e = Keeps-refl s
put_back-Keeps s (some c) (some task) e = elim (Bool-cases (is_state task.state running)) [
  | inl y ↦ rw y (
      map_some-Keeps s (λ r. set_current r none) (make_ready s c task)
        (λ u. Keeps-same u (set_current u none) refl refl)
        (make_ready-Keeps s c task task e (omega arith)))
  | inr n ↦ rw n (Keeps-refl s)
]

pub yield_now-Keeps : (s : Scheduler) → Keeps? s (yield_now s)
unfolding yield_now
yield_now-Keeps s =
    map_some-Keeps s switch _ switch-Keeps (put_back-Keeps s s.run_queue.current _ refl)

pub preempt-Keeps :
    (s : Scheduler) (c : Option ℕ) (found : Option TaskControlBlock)
    → current_of s c ≡ found
    → Keeps? s (preempt s c found)
preempt-Keeps s none found e = Keeps-refl s
preempt-Keeps s (some c) none e = Keeps-same s (set_current s none) refl refl
preempt-Keeps s (some c) (some task) e = elim (Bool-cases (is_state task.state running)) [
  | inl y ↦ rw y (
      map_some-Keeps s _ _ (λ u. Keeps-same u _ refl refl)
        (make_ready-Keeps s c task _ e (omega arith)))
  | inr n ↦ rw n (Keeps-same s (set_current s none) refl refl)
]

pub schedule-Keeps : (s : Scheduler) → Keeps? s (schedule s)
unfolding schedule
schedule-Keeps s = elim (Bool-cases (must_switch (current_of s s.run_queue.current))) [
  | inl y ↦ rw y (
      map_some-Keeps s switch _ switch-Keeps
        (counted_first _ (preempt-Keeps counted s.run_queue.current _ refl)))
  | inr n ↦ rw n (Keeps-same s _ refl refl)
]
  where
    counted : Scheduler
    counted = record s { total_schedules = u64 (s.total_schedules + 1) }

    counted_first : (o : Option Scheduler) → Keeps? counted o → Keeps? s o
    counted_first none k = tt
    counted_first (some u) k = Keeps-trans s counted u (Keeps-same s counted refl refl) k

pub charge-slice-le :
    (t : TaskControlBlock)
    → (charge t).sched_info.time_slice_remain ≤ t.sched_info.time_slice_remain
unfolding charge update_vruntime
charge-slice-le t = ground arith

pub timer_tick-Keeps : (s : Scheduler) → Keeps s (timer_tick s)
unfolding timer_tick
timer_tick-Keeps s = after s.run_queue.current (current_of s s.run_queue.current) refl
  where
    after :
        (c : Option ℕ) (found : Option TaskControlBlock)
        → current_of s c ≡ found
        → Keeps s (tick_found s c found)
    after none found e = Keeps-refl s
    after (some c) none e = Keeps-refl s
    after (some c) (some task) e = elim (Bool-cases (is_state task.state running)) [
      | inl y ↦ rw y (
          update-Keeps s _ c (λ _. charge task) refl refl
            (λ t f. ground (arith, charge-slice-le task)))
      | inr n ↦ rw n (Keeps-refl s)
    ]

pub enqueue-Keeps : (s : Scheduler) (id : ℕ) → Keeps? s (state_of (enqueue s id))
unfolding enqueue
enqueue-Keeps s id = after (get id s.tasks) refl
  where
    returned :
        (o : Option Scheduler)
        → Keeps? s o
        → Keeps? s (state_of (returning {A = Unit {0}} (ok tt) o))
    returned none k = tt
    returned (some u) k = k

    after :
        (found : Option TaskControlBlock)
        → get id s.tasks ≡ found
        → Keeps? s (state_of (enqueue_found s id found))
    after none e = Keeps-refl s
    after (some task) e = elim (Bool-cases (not (can_transition task.state ready))) [
      | inl y ↦ rw y (Keeps-refl s)
      | inr n ↦ rw n (returned _ (make_ready-Keeps s id task task e (omega arith)))
    ]

pub wake_up-Keeps : (s : Scheduler) (id : ℕ) → Keeps? s (wake_up s id)
unfolding wake_up
wake_up-Keeps s id = after (get id s.tasks) refl
  where
    after :
        (found : Option TaskControlBlock)
        → get id s.tasks ≡ found
        → Keeps? s (wake_found s id found)
    after none e = Keeps-refl s
    after (some task) e = elim (Bool-cases (is_state task.state blocked)) [
      | inl y ↦ rw y (make_ready-Keeps s id task (record task { wait_channel = 0 }) e (omega arith))
      | inr n ↦ rw n (Keeps-refl s)
    ]

pub sleep-Keeps : (s : Scheduler) (id channel : ℕ) → Keeps s (sleep s id channel)
unfolding sleep
sleep-Keeps s id channel = after (get id s.tasks) refl
  where
    after :
        (found : Option TaskControlBlock)
        → get id s.tasks ≡ found
        → Keeps s (sleep_found s id channel found)
    after none e = Keeps-refl s
    after (some task) e =
        elim (Bool-cases (is_state task.state running || is_state task.state ready)) [
          | inl y ↦ rw y (update-Keeps s _ id _ refl refl (λ t f. ground arith))
          | inr n ↦ rw n (Keeps-refl s)
        ]

pub exit-Keeps : (s : Scheduler) (id code : ℕ) → Keeps s (exit s id code)
unfolding exit
exit-Keeps s id code = after (get id s.tasks) refl
  where
    after :
        (found : Option TaskControlBlock)
        → get id s.tasks ≡ found
        → Keeps s (exit_found s id code found)
    after none e = Keeps-refl s
    after (some task) e = update-Keeps s _ id _ refl refl (λ t f. ground arith)

pub dequeue-Keeps : (s : Scheduler) (id : ℕ) → Keeps s (dequeue s id).1
unfolding dequeue
dequeue-Keeps s id = after (get id s.tasks)
  where
    after : (found : Option TaskControlBlock) → Keeps s (dequeue_found s id found).1
    after none = Keeps-refl s
    after (some task) =
        elim (Bool-cases (not (is_state task.state ready) && not (is_state task.state running))) [
          | inl y ↦ rw y (Keeps-refl s)
          | inr n ↦
              rw n (
                update-Keeps s _ id (λ t. record t { state = ready }) refl refl
                  (λ t f. omega arith))
        ]

pub pick_next-Keeps : (s : Scheduler) → Keeps s (pick_next s).1
unfolding pick_next
pick_next-Keeps s = after (pick_next_task s.run_queue)
  where
    after : (r : Option ℕ × RunQueue) → Keeps s (pick_found s r).1
    after (none, q) = Keeps-same s _ refl refl
    after (some id, q) =
        update-Keeps s _ id (λ t. record t { state = running }) refl refl (λ t f. omega arith)
