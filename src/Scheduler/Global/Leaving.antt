-- ===== src/Scheduler/Global/Leaving.antt =====
-- A running task that exits, and what `schedule` and the timer then do.
use omniagent_os.Base.{
  ℕ, ◌+◌, ◌≡◌, ◌≢◌, refl, ap, ◌∙◌, Bool, true, false, Option, none, some, List, [], ◌∷◌, arith,
  if◌then◌else◌,
}
use omniagent_os.Base.Bits.{is_bit_set, set_bit, is_bit_set-set_bit}
use omniagent_os.Base.Map.{get, get-update}
use omniagent_os.Scheduler.Priority.{u64}
use omniagent_os.Scheduler.Task.{running, zombie, is_state, need_resched, exited, TaskControlBlock}
use omniagent_os.Scheduler.RunQueue.{PriorityTree, RunQueue, tree_at, remove_from, dequeued}
use omniagent_os.Scheduler.RunQueue.Least.{IsWell}
use omniagent_os.Scheduler.RunQueue.Removal.{Removes, remove_from-Removes}
use omniagent_os.Scheduler.RunQueue
use omniagent_os.Scheduler.Global.{
  Scheduler, exit, exit_found, schedule, timer_tick, tick_found, current_of, must_switch,
}
use omniagent_os.Scheduler.Global.Calls.{Call, schedules, ticks, run, step}
use omniagent_os.Scheduler.Global.Ticks.{Runs}

-- While the current task is in the table and is not marked for rescheduling, `schedule` changes
-- nothing but its counter, whatever the state of that task and whoever waits.
pub schedule-idle :
    (s : Scheduler) (c : ℕ) (task : TaskControlBlock)
    → s.run_queue.current ≡ some c
    → get c s.tasks ≡ some task
    → is_bit_set task.flags need_resched ≡ false
    → schedule s ≡ some (record s { total_schedules = u64 (s.total_schedules + 1) })
unfolding schedule
schedule-idle s c task e f g =
    let stays : must_switch (current_of s s.run_queue.current) ≡ false =
      ap (λ o. must_switch (current_of s o)) e ∙ ap must_switch f ∙ g in
    rw stays

tick-idle :
    (s : Scheduler) (c : ℕ) (task : TaskControlBlock)
    → s.run_queue.current ≡ some c
    → get c s.tasks ≡ some task
    → is_state task.state running ≡ false
    → timer_tick s ≡ s
unfolding timer_tick
tick-idle s c task e f g =
    ap (λ o. tick_found s o (current_of s o)) e ∙ ap (tick_found s (some c)) f ∙ rw g

abbrev pub gone : TaskControlBlock → ℕ → TaskControlBlock
gone task code = record task { state = zombie; exit_code = code; flags = set_bit task.flags exited }

-- The exit of a running task that is in no queue: the task is a zombie, and still current.
exited_lem :
    (s : Scheduler) (c code : ℕ) (task : TaskControlBlock)
    → Runs s c task
    → remove_from c s.run_queue.trees ≡ none
    → ((exit s c code).run_queue ≡ s.run_queue)
      × (get c (exit s c code).tasks ≡ some (gone task code))
unfolding exit
exited_lem s c code task r unqueued = (
  ap (λ z. z.run_queue) moved ∙ unfold RunQueue.dequeue in ap (dequeued s.run_queue c) unqueued,
  ap (λ z. get c z.tasks) moved
      ∙ get-update c c (λ _. gone task code) s.tasks
      ∙ ground (arith, r.found),
)
  where
    moved : exit s c code ≡ exit_found s c code (some task)
    moved = ap (exit_found s c code) r.found

-- In no tree of the run queue.
abbrev pub IsUnqueued : Scheduler → ℕ → Type 0
IsUnqueued s c = (i k : ℕ) → get k (tree_at s.run_queue i).tree ≢ some c

remove_from-none :
    (s : Scheduler) (c : ℕ)
    → IsWell s.run_queue
    → IsUnqueued s c
    → remove_from c s.run_queue.trees ≡ none
remove_from-none s c w un =
    at (remove_from c s.run_queue.trees) refl (remove_from-Removes c s.run_queue.trees w.counts)
  where
    at :
        (o : Option (List PriorityTree))
        → remove_from c s.run_queue.trees ≡ o
        → Removes s.run_queue.trees c o
        → remove_from c s.run_queue.trees ≡ none
    at none e r = e
    at (some us) e (shrinks, j, k, was, is) = absurd (un j k was)

-- Calls of `schedule` and of the timer, in any order.
abbrev pub turns : List Bool → List Call
turns [] = []
turns (b ∷ bs) = (if b then schedules else ticks) ∷ turns bs

-- The state but for the counters.
pub record SameTasks (s u : Scheduler) : Type 0 where
  pub queue : u.run_queue ≡ s.run_queue
  pub tasks : u.tasks ≡ s.tasks

idle_turns :
    (s : Scheduler) (c : ℕ) (task : TaskControlBlock) (bs : List Bool)
    → s.run_queue.current ≡ some c
    → get c s.tasks ≡ some task
    → is_bit_set task.flags need_resched ≡ false
    → is_state task.state running ≡ false
    → (u : Scheduler) × (run (some s) (turns bs) ≡ some u) × SameTasks s u
unfolding run step
idle_turns s c task [] e f g h = (s, refl, record { queue = refl; tasks = refl })
idle_turns s c task (true ∷ bs) e f g h =
    let (u, r, same) =
      idle_turns (record s { total_schedules = u64 (s.total_schedules + 1) }) c task bs e f g h in
    (
      u,
      ap (λ o. run o (turns bs)) (schedule-idle s c task e f g) ∙ r,
      record { queue = same.queue; tasks = same.tasks },
    )
idle_turns s c task (false ∷ bs) e f g h =
    let (u, r, same) = idle_turns s c task bs e f g h in
    (u, ap (λ z. run (some z) (turns bs)) (tick-idle s c task e f h) ∙ r, same)

-- When a running task exits that is in no tree of a well-formed run queue and is not marked for
-- rescheduling, it stays the current task, a zombie, whatever calls of `schedule` and of the timer
-- follow: they all return, and change neither the run queue nor any task.
pub exit-schedule :
    (s : Scheduler) (c code : ℕ) (task : TaskControlBlock) (bs : List Bool)
    → Runs s c task
    → IsWell s.run_queue
    → IsUnqueued s c
    → is_bit_set task.flags need_resched ≡ false
    → (u : Scheduler) × (run (some (exit s c code)) (turns bs) ≡ some u)
      × (u.run_queue ≡ s.run_queue)
      × (u.run_queue.current ≡ some c)
      × (u.tasks ≡ (exit s c code).tasks)
      × ((z : TaskControlBlock) × (get c u.tasks ≡ some z) × (z.state ≡ zombie))
exit-schedule s c code task bs r w un clear =
    let (queue, found) = exited_lem s c code task r (remove_from-none s c w un) in
    let now = ap (λ q. q.current) queue ∙ r.is_current in
    let (u, e, same) =
      idle_turns (exit s c code) c (gone task code) bs now found
        (is_bit_set-set_bit task.flags exited need_resched ∙ clear) (unfold is_state in refl) in
    (
      u,
      e,
      same.queue ∙ queue,
      ap (λ q. q.current) same.queue ∙ now,
      same.tasks,
      (gone task code, ap (get c) same.tasks ∙ found, refl),
    )
