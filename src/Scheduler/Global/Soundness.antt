-- ===== src/Scheduler/Global/Soundness.antt =====
-- Picks, yields, schedules and ticks keep the run queue and the task table in agreement.
use omniagent_os.Base.{
  ℕ, ◌+◌, ◌≡◌, inl, inr, refl, ap, subst, Option, none, some, arith, ◌==◌, if◌then◌else◌, get_or,
  ℕ_discrete, Bool-cases,
}
use omniagent_os.Base.Bits.{clear_bit}
use omniagent_os.Base.Map.{get, get-remove}
use omniagent_os.Scheduler.Priority.{u64, update_vruntime}
use omniagent_os.Scheduler.Task.{TaskControlBlock, running, is_state, need_resched}
use omniagent_os.Scheduler.RunQueue.{RunQueue, empty_tree, tree_at, pick_next_task, without}
use omniagent_os.Scheduler.RunQueue
use omniagent_os.Scheduler.RunQueue.Least.{IsWell, Picks, pick_next_task-Picks}
use omniagent_os.Scheduler.Global.{
  Scheduler, charge, timer_tick, tick_found, current_of, pick_next, pick_found, schedule, preempt,
  put_back, switch, switch_found, map_some, must_switch, set_current,
}
use omniagent_os.Scheduler.Global.Sound.{
  IsSound, IsSound?, SameTask, update-IsSound, queue-IsSound, make_ready-IsSound,
}

-- What a pick leaves in the trees was there before.
pub picked-entries :
    (q : RunQueue) (o : Option ℕ) (r : RunQueue)
    → Picks 5 q (o, r)
    → IsWell q
    → IsWell r
      × ((i l id : ℕ) → get l (tree_at r i).tree ≡ some id → get l (tree_at q i).tree ≡ some id)
unfolding without
picked-entries q none r (same, none_queued) w =
    (rw same w, λ i l id g. subst (λ x. get l (tree_at x i).tree ≡ some id) same g)
picked-entries q (some c) r (j, k, h, held, above, least, trees, now, w') w =
    (w', λ i l id g. before i l id (subst (λ t. get l t.tree ≡ some id) (trees i) g))
  where
    before :
        (i l id : ℕ)
        → get l (if i == j then without (tree_at q j) k else tree_at q i).tree ≡ some id
        → get l (tree_at q i).tree ≡ some id
    before i l id g = elim (ℕ_discrete i j) [
      | yes s ↦ ground (arith, g, get-remove k l (tree_at q j).tree, ap (tree_at q) s, s)
      | no n ↦ ground (arith, g)
    ]

pub same_task : (t : TaskControlBlock) → SameTask t t
same_task t = record { same_id = refl; same_class = refl }

pub switch-IsSound : (s : Scheduler) → IsSound s → IsSound (switch s)
unfolding switch
switch-IsSound s v =
    let (o, r) = pick_next_task s.run_queue in after o r (pick_next_task-Picks s.run_queue v.well)
  where
    after :
        (o : Option ℕ) (r : RunQueue) → Picks 5 s.run_queue (o, r) → IsSound (switch_found s (o, r))
    after none r p =
        let (w, from) = picked-entries s.run_queue none r p v.well in
        queue-IsSound s _ refl w from v
    after (some c) r p =
        let (w, from) = picked-entries s.run_queue (some c) r p v.well in
        update-IsSound s _ c (λ t. record t { state = running }) refl w from
          (λ t e. record { same_id = refl; same_class = refl }) v

pub pick_next-IsSound : (s : Scheduler) → IsSound s → IsSound (pick_next s).1
unfolding pick_next
pick_next-IsSound s v =
    let (o, r) = pick_next_task s.run_queue in after o r (pick_next_task-Picks s.run_queue v.well)
  where
    after :
        (o : Option ℕ) (r : RunQueue) → Picks 5 s.run_queue (o, r) → IsSound (pick_found s (o, r)).1
    after none r p =
        let (w, from) = picked-entries s.run_queue none r p v.well in
        queue-IsSound s _ refl w from v
    after (some c) r p =
        let (w, from) = picked-entries s.run_queue (some c) r p v.well in
        update-IsSound s _ c (λ t. record t { state = running }) refl w from
          (λ t e. record { same_id = refl; same_class = refl }) v

-- Only the counters or the current task differ.
pub same_queue :
    (s u : Scheduler)
    → u.tasks ≡ s.tasks
    → u.run_queue.trees ≡ s.run_queue.trees
    → IsSound s
    → IsSound u
unfolding RunQueue.set_current
same_queue s u e q v =
    queue-IsSound s u e (record { size = rw q v.well.size; counts = λ i. rw q (v.well.counts i) })
      (λ i l id g. subst (λ ts. get l (get_or ts i empty_tree).tree ≡ some id) q g) v

pub map_some-IsSound :
    (f : Scheduler → Scheduler) (o : Option Scheduler)
    → ((u : Scheduler) → IsSound u → IsSound (f u))
    → IsSound? o
    → IsSound? (map_some f o)
map_some-IsSound f none h k = tt
map_some-IsSound f (some u) h k = h u k

pub set_current-IsSound : (u : Scheduler) (c : Option ℕ) → IsSound u → IsSound (set_current u c)
unfolding RunQueue.set_current
set_current-IsSound u c v = same_queue u _ refl refl v

pub put_back-IsSound :
    (s : Scheduler) (c : Option ℕ) (found : Option TaskControlBlock)
    → current_of s c ≡ found
    → IsSound s
    → IsSound? (put_back s c found)
put_back-IsSound s none found e v = v
put_back-IsSound s (some c) none e v = v
put_back-IsSound s (some c) (some task) e v = elim (Bool-cases (is_state task.state running)) [
  | inl y ↦ rw y (
      map_some-IsSound _ _ (λ u w. set_current-IsSound u none w)
        (make_ready-IsSound s c task task e (same_task task) v))
  | inr n ↦ rw n v
]

pub preempt-IsSound :
    (s : Scheduler) (c : Option ℕ) (found : Option TaskControlBlock)
    → current_of s c ≡ found
    → IsSound s
    → IsSound? (preempt s c found)
unfolding RunQueue.set_current
preempt-IsSound s none found e v = v
preempt-IsSound s (some c) none e v = same_queue s _ refl refl v
preempt-IsSound s (some c) (some task) e v = elim (Bool-cases (is_state task.state running)) [
  | inl y ↦ rw y (
      map_some-IsSound _ _ (λ u w. same_queue u _ refl refl w)
        (make_ready-IsSound s c task (record task { flags = clear_bit 64 task.flags need_resched })
          e (record { same_id = refl; same_class = refl }) v))
  | inr n ↦ rw n (same_queue s _ refl refl v)
]

pub schedule-IsSound : (s : Scheduler) → IsSound s → IsSound? (schedule s)
unfolding schedule
schedule-IsSound s v = elim (Bool-cases (must_switch (current_of s s.run_queue.current))) [
  | inl y ↦ rw y (
      map_some-IsSound switch _ switch-IsSound
        (preempt-IsSound counted s.run_queue.current _ refl (same_queue s counted refl refl v)))
  | inr n ↦ rw n (same_queue s counted refl refl v)
]
  where
    counted : Scheduler
    counted = record s { total_schedules = u64 (s.total_schedules + 1) }

pub charge-SameTask : (t : TaskControlBlock) → SameTask t (charge t)
unfolding charge update_vruntime
charge-SameTask t = ground arith

pub timer_tick-IsSound : (s : Scheduler) → IsSound s → IsSound (timer_tick s)
unfolding timer_tick
timer_tick-IsSound s v = after s.run_queue.current (current_of s s.run_queue.current) refl
  where
    after :
        (c : Option ℕ) (found : Option TaskControlBlock)
        → current_of s c ≡ found
        → IsSound (tick_found s c found)
    after none found e = v
    after (some c) none e = v
    after (some c) (some task) e = elim (Bool-cases (is_state task.state running)) [
      | inl y ↦ rw y (
          update-IsSound s _ c (λ _. charge task) refl v.well (λ i l id g. g)
            (λ t f. ground (arith, charge-SameTask task, e, f)) v)
      | inr n ↦ rw n v
    ]
