-- ===== src/Scheduler/Global/Entries.antt =====
-- Calls that name a task keep the run queue and the task table in agreement.
use omniagent_os.Base.{
  ℕ, ◌≡◌, inl, inr, refl, Option, none, some, arith, Bool-cases, not, ◌&&◌, ◌||◌, ok,
}
use omniagent_os.Base.Map.{get, update}
use omniagent_os.Scheduler.Task.{
  TaskControlBlock, ready, running, blocked, is_state, can_transition,
}
use omniagent_os.Scheduler.RunQueue.{RunQueue, empty_tree, tree_at, pick_next_task, without}
use omniagent_os.Scheduler.RunQueue
use omniagent_os.Scheduler.RunQueue.Removal.{dequeue-Dequeues}
use omniagent_os.Scheduler.Global.{
  Scheduler, enqueue, enqueue_found, dequeue, dequeue_found, sleep, sleep_found, wake_up,
  wake_found, exit, exit_found, returning,
}
use omniagent_os.Scheduler.Global.Calls.{state_of}
use omniagent_os.Scheduler.Global.Sound.{
  IsSound, IsSound?, SameTask, update-IsSound, make_ready-IsSound,
}
use omniagent_os.Scheduler.Global.Soundness.{same_task}

-- A call that takes one task out of the queue and changes its entry.
pub removal-IsSound :
    (s u : Scheduler) (k : ℕ) (f : TaskControlBlock → TaskControlBlock)
    → u.tasks ≡ update k f s.tasks
    → u.run_queue ≡ RunQueue.dequeue s.run_queue k
    → ((t : TaskControlBlock) → get k s.tasks ≡ some t → SameTask t (f t))
    → IsSound s
    → IsSound u
removal-IsSound s u k f e q h v =
    let d = dequeue-Dequeues s.run_queue k v.well in
    update-IsSound s u k f e (rw q d.well) (λ i l id g. d.entries i l id (rw q at g)) h v

pub enqueue-IsSound : (s : Scheduler) (id : ℕ) → IsSound s → IsSound? (state_of (enqueue s id))
unfolding enqueue
enqueue-IsSound s id v = after (get id s.tasks) refl
  where
    returned :
        (o : Option Scheduler)
        → IsSound? o
        → IsSound? (state_of (returning {A = Unit {0}} (ok tt) o))
    returned none k = tt
    returned (some u) k = k

    after :
        (found : Option TaskControlBlock)
        → get id s.tasks ≡ found
        → IsSound? (state_of (enqueue_found s id found))
    after none e = v
    after (some task) e = elim (Bool-cases (not (can_transition task.state ready))) [
      | inl y ↦ rw y v
      | inr n ↦ rw n (returned _ (make_ready-IsSound s id task task e (same_task task) v))
    ]

pub wake_up-IsSound : (s : Scheduler) (id : ℕ) → IsSound s → IsSound? (wake_up s id)
unfolding wake_up
wake_up-IsSound s id v = after (get id s.tasks) refl
  where
    after :
        (found : Option TaskControlBlock)
        → get id s.tasks ≡ found
        → IsSound? (wake_found s id found)
    after none e = v
    after (some task) e = elim (Bool-cases (is_state task.state blocked)) [
      | inl y ↦ rw y (
          make_ready-IsSound s id task (record task { wait_channel = 0 }) e
            (record { same_id = refl; same_class = refl }) v)
      | inr n ↦ rw n v
    ]

pub sleep-IsSound : (s : Scheduler) (id channel : ℕ) → IsSound s → IsSound (sleep s id channel)
unfolding sleep
sleep-IsSound s id channel v = after (get id s.tasks) refl
  where
    after :
        (found : Option TaskControlBlock)
        → get id s.tasks ≡ found
        → IsSound (sleep_found s id channel found)
    after none e = v
    after (some task) e =
        elim (Bool-cases (is_state task.state running || is_state task.state ready)) [
          | inl y ↦ rw y (removal-IsSound s _ id _ refl refl (λ t f. ground (arith, e, f)) v)
          | inr n ↦ rw n v
        ]

pub exit-IsSound : (s : Scheduler) (id code : ℕ) → IsSound s → IsSound (exit s id code)
unfolding exit
exit-IsSound s id code v = after (get id s.tasks) refl
  where
    after :
        (found : Option TaskControlBlock)
        → get id s.tasks ≡ found
        → IsSound (exit_found s id code found)
    after none e = v
    after (some task) e = removal-IsSound s _ id _ refl refl (λ t f. ground (arith, e, f)) v

pub dequeue-IsSound : (s : Scheduler) (id : ℕ) → IsSound s → IsSound (dequeue s id).1
unfolding dequeue
dequeue-IsSound s id v = after (get id s.tasks)
  where
    after : (found : Option TaskControlBlock) → IsSound (dequeue_found s id found).1
    after none = v
    after (some task) =
        elim (Bool-cases (not (is_state task.state ready) && not (is_state task.state running))) [
          | inl y ↦ rw y v
          | inr n ↦ rw n (
              removal-IsSound s _ id (λ t. record t { state = ready }) refl refl
                (λ t e. record { same_id = refl; same_class = refl }) v)
        ]
