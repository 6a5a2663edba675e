-- ===== src/BitmapScheduler.antt =====
-- kernel/src/bitmap_scheduler/scheduler.rs: 32 ready queues, the lowest number being the highest
-- priority, and a bitmap of the queues that hold a task. A call runs alone here; `Interleaving`
-- has the steps of a call apart. The atomics' counters wrap at 64 bits.
pub mod Invariant
pub mod Picking
pub mod Queues
pub mod Interleaving
pub mod Alone
mod Examples
use omniagent_os.Base.{
  ℕ, zero, suc, ◌+◌, ◌%◌, ◌^◌, Bool, true, false, not, ◌&&◌, ◌||◌, Option, none, some, List, [],
  ◌∷◌, ◌++◌, ltb, leb, ◌==◌, if◌then◌else◌, length, get_or, set, replicate, is_empty, Result, ok,
  err,
}
use omniagent_os.Base.Bits.{set_bit, clear_bit, trailing_zeros}

pub data SchedulerError : Type 0 where
  invalid_priority : ℕ → SchedulerError
  task_not_found : ℕ → SchedulerError
  queue_empty : ℕ → SchedulerError

pub record BitmapScheduler : Type 0 where
  pub priority_bitmap : ℕ  -- AtomicU32
  pub queues : List (List ℕ)  -- [Mutex<VecDeque<u64>>; 32]
  pub running : ℕ  -- `current`; 0 is no task
  pub total_schedules : ℕ  -- AtomicU64
  pub context_switches : ℕ  -- AtomicU64

abbrev pub u64 : ℕ → ℕ
u64 n = n % 2 ^ 64

pub new : BitmapScheduler
new = record {
  priority_bitmap = 0;
  queues = replicate 32 [];
  running = 0;
  total_schedules = 0;
  context_switches = 0;
}

-- `self.queues[priority]`
abbrev pub queue : BitmapScheduler → ℕ → List ℕ
queue s priority = get_or s.queues priority []

-- The first half of `enqueue`, under the queue's lock.
pub push : BitmapScheduler → ℕ → ℕ → BitmapScheduler
push s task_id priority = record s {
  queues = set s.queues priority (queue s priority ++ task_id ∷ []);
}

-- The second half, after the lock is released.
pub publish : BitmapScheduler → ℕ → BitmapScheduler
publish s priority = record s { priority_bitmap = set_bit s.priority_bitmap priority }

pub enqueue : BitmapScheduler → ℕ → ℕ → Result (Unit {0}) SchedulerError × BitmapScheduler
unfolding push publish
enqueue s task_id priority =
    if leb 32 priority
    then (err (invalid_priority priority), s)
    else (ok tt, publish (push s task_id priority) priority)

pub contains : ℕ → List ℕ → Bool
contains t [] = false
contains t (x ∷ xs) = x == t || contains t xs

-- `queue.remove(queue.iter().position(|&id| id == t))`
unfoldable pub remove_first : ℕ → List ℕ → List ℕ
remove_first t [] = []
remove_first t (x ∷ xs) = let rest = x ∷ remove_first t xs in if x == t then xs else rest

-- A queue is written back, and its bit cleared if it is empty.
pub write_back : BitmapScheduler → ℕ → List ℕ → BitmapScheduler
write_back s priority q = record s {
  queues = set s.queues priority q;
  priority_bitmap =
      if is_empty q then clear_bit 32 s.priority_bitmap priority else s.priority_bitmap;
}

-- `for priority in priority..priority + rounds`, up to its `break`.
pub dequeue_from : ℕ → ℕ → BitmapScheduler → ℕ → Result (Unit {0}) SchedulerError × BitmapScheduler
unfolding write_back
dequeue_from zero priority s task_id = (err (task_not_found task_id), s)
dequeue_from (suc rounds) priority s task_id =
    let rest = dequeue_from rounds (suc priority) s task_id in
    if contains task_id (queue s priority)
    then (ok tt, write_back s priority (remove_first task_id (queue s priority)))
    else rest

pub dequeue : BitmapScheduler → ℕ → Result (Unit {0}) SchedulerError × BitmapScheduler
unfolding dequeue_from
dequeue s task_id = dequeue_from 32 0 s task_id

-- The statistics at the end of `pick_next`.
pub account : BitmapScheduler → ℕ → BitmapScheduler
account s task_id = record s {
  total_schedules = u64 (s.total_schedules + 1);
  context_switches =
      if not (s.running == 0) && not (s.running == task_id)
      then u64 (s.context_switches + 1)
      else s.context_switches;
}

pub pop_front : BitmapScheduler → ℕ → List ℕ → Option ℕ × BitmapScheduler
unfolding write_back account
pop_front s priority [] = (none, s)
pop_front s priority (task_id ∷ rest) = (some task_id, account (write_back s priority rest) task_id)

pub pick_next : BitmapScheduler → Option ℕ × BitmapScheduler
unfolding pop_front
pick_next s =
    let highest_priority = trailing_zeros 32 s.priority_bitmap in
    if s.priority_bitmap == 0
    then (none, s)
    else pop_front s highest_priority (queue s highest_priority)

pub set_current : BitmapScheduler → ℕ → BitmapScheduler
set_current s task_id = record s { running = task_id }

pub current : BitmapScheduler → Option ℕ
current s = if s.running == 0 then none else some s.running

-- `self.queues[..].contains(&current)` for one of the priorities from `priority` on.
pub is_queued : ℕ → ℕ → BitmapScheduler → ℕ → Bool
unfolding contains
is_queued zero priority s t = false
is_queued (suc rounds) priority s t =
    contains t (queue s priority) || is_queued rounds (suc priority) s t

unfoldable pub yield_task : BitmapScheduler → BitmapScheduler
unfolding is_queued
yield_task s =
    if s.running == 0 then s else if is_queued 32 0 s s.running then s else record s { running = 0 }

pub queue_len : BitmapScheduler → ℕ → ℕ
queue_len s priority = if leb 32 priority then 0 else length (queue s priority)

pub stats : BitmapScheduler → ℕ × ℕ
stats s = (s.total_schedules, s.context_switches)
