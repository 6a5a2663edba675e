-- ===== src/Scheduler/Global/Refills.antt =====
-- No call of the scheduler gives a task more of its time slice.
use omniagent_os.Base.{
  ℕ, ◌+◌, ◌^◌, ◌<◌, length, ◌≤◌, ◌≡◌, refl, subst, Option, none, some, List, [], ◌∷◌, arith,
}
use omniagent_os.Base.Map.{get}
use omniagent_os.Scheduler.Task.{TaskControlBlock}
use omniagent_os.Scheduler.Global.{Scheduler, init, create_task}
use omniagent_os.Scheduler.Global.Calls.{
  Call, inits, creates, enqueues, dequeues, picks, yields, sleeps, wakes, exits, schedules, ticks,
  step, run,
}
use omniagent_os.Scheduler.Global.Slices.{
  NoMore, NoMore-refl, IsFresh, Continues, Keeps-Continues, Continues-trans, insert-Continues,
}
use omniagent_os.Scheduler.Global.Keeping.{
  Keeps?, yield_now-Keeps, schedule-Keeps, timer_tick-Keeps, enqueue-Keeps, wake_up-Keeps,
  sleep-Keeps, exit-Keeps, dequeue-Keeps, pick_next-Keeps,
}

-- A call that does not return has no state to speak of.
abbrev Continues? : ℕ → Scheduler → Option Scheduler → Type 0
Continues? n s none = Unit {0}
Continues? n s (some u) = Continues n s u

kept : (s : Scheduler) (o : Option Scheduler) → IsFresh s → Keeps? s o → Continues? 1 s o
kept s none f k = tt
kept s (some u) f k = Keeps-Continues s u f k

step-Continues :
    (s : Scheduler) (c : Call) → IsFresh s → s.next_task_id + 1 < 2 ^ 64 → Continues? 1 s (step s c)
unfolding step
step-Continues s inits f b = unfold init in insert-Continues s (init s) _ refl refl b f
step-Continues s (creates entry top priority user agent) f b =
    unfold create_task in insert-Continues s _ _ refl refl b f
step-Continues s (enqueues id) f b = kept s _ f (enqueue-Keeps s id)
step-Continues s (dequeues id) f b = kept s (some _) f (dequeue-Keeps s id)
step-Continues s picks f b = kept s (some _) f (pick_next-Keeps s)
step-Continues s yields f b = kept s _ f (yield_now-Keeps s)
step-Continues s (sleeps id channel) f b = kept s (some _) f (sleep-Keeps s id channel)
step-Continues s (wakes id) f b = kept s _ f (wake_up-Keeps s id)
step-Continues s (exits id code) f b = kept s (some _) f (exit-Keeps s id code)
step-Continues s schedules f b = kept s _ f (schedule-Keeps s)
step-Continues s ticks f b = kept s (some _) f (timer_tick-Keeps s)

run-Continues :
    (n : ℕ) (o : Option Scheduler) (s : Scheduler) (cs : List Call)
    → s.next_task_id + (n + length cs) < 2 ^ 64
    → Continues? n s o
    → Continues? (n + length cs) s (run o cs)
unfolding run
run-Continues n none s cs b k = tt
run-Continues n (some u) s [] b k = subst (λ m. Continues m s u) (omega arith) k
run-Continues n (some u) s (c ∷ cs) b k =
    let one = step-Continues u c k.fresh (omega (arith, b, k.next)) in
    subst (λ m. Continues? m s (run (step u c) cs)) (omega arith)
      (run-Continues (n + 1) (step u c) s cs (omega (arith, b)) (extended (step u c) one))
  where
    extended : (o : Option Scheduler) → Continues? 1 u o → Continues? (n + 1) s o
    extended none h = tt
    extended (some v) h = Continues-trans n 1 s u v k h

start-Continues : (s : Scheduler) → IsFresh s → Continues 0 s s
start-Continues s f = record {
  slices = λ id. NoMore-refl (get id s.tasks);
  next = omega arith;
  fresh = f;
}

-- Whatever calls follow, a task never has more of its time slice left than it had: no call refills
-- a slice. The table has no id that is still to be handed out, and a new id for each of the calls
-- would not wrap the 64 bits of the ids.
pub run-slice :
    (s u : Scheduler) (cs : List Call) (id : ℕ) (t : TaskControlBlock)
    → IsFresh s
    → s.next_task_id + length cs < 2 ^ 64
    → run (some s) cs ≡ some u
    → get id s.tasks ≡ some t
    → (now : TaskControlBlock) × (get id u.tasks ≡ some now)
      × (now.sched_info.time_slice_remain ≤ t.sched_info.time_slice_remain)
run-slice s u cs id t f b e g =
    let k =
      subst (Continues? (0 + length cs) s) e
        (run-Continues 0 (some s) s cs (omega (arith, b)) (start-Continues s f)) in
    left (get id u.tasks) refl (subst (λ o. NoMore o (get id u.tasks)) g (k.slices id))
  where
    left :
        (o : Option TaskControlBlock)
        → get id u.tasks ≡ o
        → NoMore (some t) o
        → (now : TaskControlBlock) × (get id u.tasks ≡ some now)
          × (now.sched_info.time_slice_remain ≤ t.sched_info.time_slice_remain)
    left none q h = absurd h
    left (some now) q h = (now, q, h)
