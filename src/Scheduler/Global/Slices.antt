-- ===== src/Scheduler/Global/Slices.antt =====
-- When one state of the scheduler has no task with more of its time slice than another.
use omniagent_os.Base.{
  ℕ, zero, suc, ◌+◌, ◌-◌, ◌%◌, ◌^◌, ◌*◌, ◌≤◌, ◌<◌, ◌≡◌, ◌⊎◌, inl, inr, refl, sym, ap, ◌∙◌, subst,
  Bool, true, false, Option, none, some, List, [], ◌∷◌, arith, ltb, ◌==◌, if◌then◌else◌,
  Option-cases, Bool-cases, not, ◌&&◌, ◌||◌, ok, err, ℕ_discrete,
}
use omniagent_os.Base.Map.{Map, get, insert, update, get-update, get-insert}
use omniagent_os.Scheduler.Task.{TaskControlBlock}
use omniagent_os.Scheduler.Global.{Scheduler}

-- A task that was there still is, with no more time left than before.
abbrev pub NoMore : Option TaskControlBlock → Option TaskControlBlock → Type 0
NoMore none now = Unit {0}
NoMore (some t) none = ⊥
NoMore (some t) (some u) = u.sched_info.time_slice_remain ≤ t.sched_info.time_slice_remain

pub NoMore-refl : (o : Option TaskControlBlock) → NoMore o o
NoMore-refl none = tt
NoMore-refl (some t) = omega arith

pub NoMore-trans : (a b c : Option TaskControlBlock) → NoMore a b → NoMore b c → NoMore a c
NoMore-trans none b c p q = tt
NoMore-trans (some t) (some u) none p q = q
NoMore-trans (some t) (some u) (some v) p q = omega arith
NoMore-trans (some t) none c p q = absurd p

-- Also, the call hands out no id.
pub record Keeps (s u : Scheduler) : Type 0 where
  pub slices : (id : ℕ) → NoMore (get id s.tasks) (get id u.tasks)
  pub next : u.next_task_id ≡ s.next_task_id
  pub fresh :
      ((id : ℕ) → s.next_task_id ≤ id → get id s.tasks ≡ none)
      → (id : ℕ) → u.next_task_id ≤ id
      → get id u.tasks ≡ none

pub Keeps-refl : (s : Scheduler) → Keeps s s
Keeps-refl s = record { slices = λ id. NoMore-refl (get id s.tasks); next = refl; fresh = λ f. f }

pub Keeps-trans : (s t u : Scheduler) → Keeps s t → Keeps t u → Keeps s u
Keeps-trans s t u p q = record {
  slices = λ id.
      NoMore-trans (get id s.tasks) (get id t.tasks) (get id u.tasks) (p.slices id) (q.slices id);
  next = q.next ∙ p.next;
  fresh = λ f. q.fresh (p.fresh f);
}

pub Keeps-same : (s u : Scheduler) → u.tasks ≡ s.tasks → u.next_task_id ≡ s.next_task_id → Keeps s u
Keeps-same s u e n = record {
  slices = λ id. rw e (NoMore-refl (get id s.tasks));
  next = n;
  fresh = λ f id l. rw e (f id (ground arith));
}

update-NoMore :
    (m : Map TaskControlBlock) (k : ℕ) (f : TaskControlBlock → TaskControlBlock) (id : ℕ)
    → ((t : TaskControlBlock)
        → get k m ≡ some t
        → (f t).sched_info.time_slice_remain ≤ t.sched_info.time_slice_remain)
    → NoMore (get id m) (get id (update k f m))
update-NoMore m k f id h = rw (get-update k id f m) (elim (ℕ_discrete k id) [
  | yes e ↦ by_case (get id m) (ap (λ j. get j m) e)
  | no n ↦ ground (arith, NoMore-refl (get id m))
])
  where
    by_case :
        (o : Option TaskControlBlock)
        → get k m ≡ o
        → NoMore o (if k == id then omniagent_os.Base.Map.map_some f o else o)
    by_case none e = tt
    by_case (some t) e = ground (arith, h t e)

-- A call that changes the queue, the counters and one task, which gets no more time.
pub update-Keeps :
    (s u : Scheduler) (k : ℕ) (f : TaskControlBlock → TaskControlBlock)
    → u.tasks ≡ update k f s.tasks
    → u.next_task_id ≡ s.next_task_id
    → ((t : TaskControlBlock)
        → get k s.tasks ≡ some t
        → (f t).sched_info.time_slice_remain ≤ t.sched_info.time_slice_remain)
    → Keeps s u
update-Keeps s u k f e n h = record {
  slices = λ id. rw e (update-NoMore s.tasks k f id h);
  next = n;
  fresh = λ g id l. rw e (ground (arith, get-update k id f s.tasks, g id, n));
}

abbrev pub IsFresh : Scheduler → Type 0
IsFresh s = (id : ℕ) → s.next_task_id ≤ id → get id s.tasks ≡ none

-- What calls that hand out n ids at most keep, if the ids do not wrap.
pub record Continues (n : ℕ) (s u : Scheduler) : Type 0 where
  pub slices : (id : ℕ) → NoMore (get id s.tasks) (get id u.tasks)
  pub next : u.next_task_id ≤ s.next_task_id + n
  pub fresh : IsFresh u

pub Keeps-Continues : (s u : Scheduler) → IsFresh s → Keeps s u → Continues 1 s u
Keeps-Continues s u f k = record {
  slices = k.slices;
  next = omega (arith, k.next);
  fresh = k.fresh f;
}

pub Continues-trans :
    (a b : ℕ) (s t u : Scheduler) → Continues a s t → Continues b t u → Continues (a + b) s u
Continues-trans a b s t u p q = record {
  slices = λ id.
      NoMore-trans (get id s.tasks) (get id t.tasks) (get id u.tasks) (p.slices id) (q.slices id);
  next = omega (arith, p.next, q.next);
  fresh = q.fresh;
}

pub insert-Continues :
    (s u : Scheduler) (t : TaskControlBlock)
    → u.tasks ≡ insert s.next_task_id t s.tasks
    → u.next_task_id ≡ (s.next_task_id + 1) % 2 ^ 64
    → s.next_task_id + 1 < 2 ^ 64
    → IsFresh s
    → Continues 1 s u
insert-Continues s u t e n b f = record {
  slices = λ id.
      rw (e, get-insert s.next_task_id id t s.tasks)
        (elim (ℕ_discrete s.next_task_id id) [
          | yes q ↦ rw (← q, f s.next_task_id (omega arith)) tt
          | no q ↦ ground (arith, NoMore-refl (get id s.tasks))
        ]);
  next = omega (arith, n, b);
  fresh = λ id l.
      let later : s.next_task_id + 1 ≤ id = omega (arith, n, b, l) in
      rw e (ground (arith, get-insert s.next_task_id id t s.tasks, f id, later));
}
