-- ===== src/Scheduler/Global/Running.antt =====
-- Runs of the scheduler keep the run queue and the task table in agreement, and what a pick then does.
use omniagent_os.Base.{ℕ, ◌≡◌, refl, ap, subst, Option, none, some, List, [], ◌∷◌, arith}
use omniagent_os.Base.Map.{get, get-update}
use omniagent_os.Scheduler.Task.{TaskControlBlock, running, new_task}
use omniagent_os.Scheduler.RunQueue.{RunQueue, pick_next_task}
use omniagent_os.Scheduler.RunQueue.Least.{Picks, pick_next_task-Picks, new-IsWell, new-empty}
use omniagent_os.Scheduler.Global.{
  Scheduler, new, init, create_task, pick_next, pick_found, yield_now, switch,
}
use omniagent_os.Scheduler.Global.Calls.{
  Call, inits, creates, enqueues, dequeues, picks, yields, sleeps, wakes, exits, schedules, ticks,
  step, run,
}
use omniagent_os.Scheduler.Global.Sound.{IsSound, IsSound?, insert-IsSound}
use omniagent_os.Scheduler.Global.Soundness.{
  map_some-IsSound, pick_next-IsSound, put_back-IsSound, schedule-IsSound, switch-IsSound,
  timer_tick-IsSound,
}
use omniagent_os.Scheduler.Global.Entries.{
  dequeue-IsSound, enqueue-IsSound, exit-IsSound, sleep-IsSound, wake_up-IsSound,
}

-- Whatever the call and its arguments, a sound scheduler is sound after it, if it returns.
pub step-IsSound : (s : Scheduler) (c : Call) → IsSound s → IsSound? (step s c)
unfolding step
step-IsSound s inits v = unfold init new_task in insert-IsSound s (init s) _ refl refl refl v
step-IsSound s (creates entry top priority user agent) v =
    unfold create_task new_task in insert-IsSound s _ _ refl refl refl v
step-IsSound s (enqueues id) v = enqueue-IsSound s id v
step-IsSound s (dequeues id) v = dequeue-IsSound s id v
step-IsSound s picks v = pick_next-IsSound s v
step-IsSound s yields v =
    unfold yield_now in
    map_some-IsSound switch _ switch-IsSound (put_back-IsSound s s.run_queue.current _ refl v)
step-IsSound s (sleeps id channel) v = sleep-IsSound s id channel v
step-IsSound s (wakes id) v = wake_up-IsSound s id v
step-IsSound s (exits id code) v = exit-IsSound s id code v
step-IsSound s schedules v = schedule-IsSound s v
step-IsSound s ticks v = timer_tick-IsSound s v

pub run-IsSound : (o : Option Scheduler) (cs : List Call) → IsSound? o → IsSound? (run o cs)
unfolding run
run-IsSound none cs v = tt
run-IsSound (some s) [] v = v
run-IsSound (some s) (c ∷ cs) v = run-IsSound (step s c) cs (step-IsSound s c v)

pub new-IsSound : IsSound new
unfolding new
new-IsSound = record {
  well = new-IsWell;
  listed = λ i k id g. absurd (unfold get in cc (g, ap (λ t. get k t.tree) (new-empty i)));
  named = λ id t g. absurd (unfold get in cc g);
}

-- The task `id` of the table runs, and is current.
abbrev pub Running : Scheduler → ℕ → Type 0
Running u id =
    (t : TaskControlBlock) × (get id u.tasks ≡ some t)
    × (t.state ≡ running)
    × (t.id ≡ id)
    × (u.run_queue.current ≡ some id)

pub pick_found-Running :
    (s : Scheduler) (c : ℕ) (r : RunQueue) (t : TaskControlBlock)
    → get c s.tasks ≡ some t
    → t.id ≡ c
    → r.current ≡ some c
    → Running (pick_found s (some c, r)).1 c
pick_found-Running s c r t found own now = (
  record t { state = running },
  ground (arith, get-update c c (λ x. record x { state = running }) s.tasks, found),
  refl,
  own,
  now,
)

pub picked-Running :
    (s : Scheduler) (o : Option ℕ) (r : RunQueue) (id : ℕ) (u : Scheduler)
    → IsSound s
    → Picks 5 s.run_queue (o, r)
    → pick_found s (o, r) ≡ (some id, u)
    → Running u id
picked-Running s none r id u v p q = absurd (cc q)
picked-Running s (some c) r id u v (j, k, h, held, above, least, trees, now, w) q =
    let (t, found) = v.listed j k c held in
    let same : c ≡ id = cc (ap (λ x. x.0) q) in
    subst (λ x. Running x id) (ap (λ x. x.1) q)
      (subst (Running (pick_found s (some c, r)).1) same
        (pick_found-Running s c r t found (v.named c t found) now))

-- After any calls from a new scheduler, the task that `pick_next` chooses is in the table, under
-- its own id; it now runs, and is the current task.
pub pick_next-Running :
    (cs : List Call) (s u : Scheduler) (id : ℕ)
    → run (some new) cs ≡ some s
    → pick_next s ≡ (some id, u)
    → Running u id
unfolding pick_next
pick_next-Running cs s u id e p =
    let v = subst IsSound? e (run-IsSound (some new) cs new-IsSound) in
    let r = pick_next_task s.run_queue in
    picked-Running s r.0 r.1 id u v (pick_next_task-Picks s.run_queue v.well) p
