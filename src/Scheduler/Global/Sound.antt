-- ===== src/Scheduler/Global/Sound.antt =====
-- The run queue agrees with the task table: the invariant and what keeps it.
use omniagent_os.Base.{
  ℕ, ◌≡◌, ◌⊎◌, inl, inr, refl, sym, ap, ◌∙◌, subst, Option, none, some, arith, ℕ_discrete,
}
use omniagent_os.Base.Map.{Map, get, insert, update, get-update, get-insert}
use omniagent_os.Scheduler.Priority.{index}
use omniagent_os.Scheduler.Task.{TaskControlBlock, ready}
use omniagent_os.Scheduler.RunQueue.{RunQueue, tree_at}
use omniagent_os.Scheduler.RunQueue.Least.{IsWell, Adds, enqueue-Adds}
use omniagent_os.Scheduler.Global.{Scheduler, put, make_ready, with_queue}

abbrev pub Listed : Map TaskControlBlock → ℕ → Type 0
Listed m id = (t : TaskControlBlock) × (get id m ≡ some t)

-- Every queued task is in the table, which files each task under its own id.
pub record IsSound (s : Scheduler) : Type 0 where
  pub well : IsWell s.run_queue
  pub listed : (i k id : ℕ) → get k (tree_at s.run_queue i).tree ≡ some id → Listed s.tasks id
  pub named : (id : ℕ) (t : TaskControlBlock) → get id s.tasks ≡ some t → t.id ≡ id

-- Two states of one task: the same id and the same class.
pub record SameTask (t u : TaskControlBlock) : Type 0 where
  pub same_id : u.id ≡ t.id
  pub same_class : u.sched_info.priority ≡ t.sched_info.priority

module _ (m : Map TaskControlBlock) (k : ℕ) (f : TaskControlBlock → TaskControlBlock)
    (h : (t : TaskControlBlock) → get k m ≡ some t → SameTask t (f t)) where
  pub update-Listed : (id : ℕ) → Listed m id → Listed (update k f m) id
  update-Listed id (t, e) = elim (ℕ_discrete k id) [
    | yes s ↦ (f t, ground (arith, get-update k id f m, e))
    | no n ↦ (t, ground (arith, get-update k id f m, e))
  ]

  pub update_fresh : (id : ℕ) → get id m ≡ none → get id (update k f m) ≡ none
  update_fresh id e = ground (arith, get-update k id f m)

  pub update_named :
      ((id : ℕ) (t : TaskControlBlock) → get id m ≡ some t → t.id ≡ id)
      → (id : ℕ) (t : TaskControlBlock) → get id (update k f m) ≡ some t
      → t.id ≡ id
  update_named n id t e = before (get id m) refl (ℕ_discrete k id)
    where
      before : (o : Option TaskControlBlock) → get id m ≡ o → Dec (k ≡ id) → t.id ≡ id
      before none g d = let gone = update_fresh id g in absurd (cc (sym e ∙ gone))
      before (some u) g (yes s) =
          let now : t ≡ f u = ground (arith, get-update k id f m, g, e) in
          ap (λ x. x.id) now ∙ (h u (ap (λ j. get j m) s ∙ g)).same_id ∙ n id u g
      before (some u) g (no d) = n id t (ground (arith, get-update k id f m, e))

-- A change of the queue that adds nothing, and of one task that keeps its id and class.
pub update-IsSound :
    (s u : Scheduler) (k : ℕ) (f : TaskControlBlock → TaskControlBlock)
    → u.tasks ≡ update k f s.tasks
    → IsWell u.run_queue
    → ((i l id : ℕ)
        → get l (tree_at u.run_queue i).tree ≡ some id
        → get l (tree_at s.run_queue i).tree ≡ some id)
    → ((t : TaskControlBlock) → get k s.tasks ≡ some t → SameTask t (f t))
    → IsSound s
    → IsSound u
update-IsSound s u k f e w from h v = record {
  well = w;
  listed = λ i l id g.
      subst (λ m. Listed m id) (sym e)
        (update-Listed s.tasks k f h id (v.listed i l id (from i l id g)));
  named =
      subst (λ m. (id : ℕ) (t : TaskControlBlock) → get id m ≡ some t → t.id ≡ id) (sym e)
        (update_named s.tasks k f h v.named);
}

-- One state with the table of another, and a queue that adds nothing.
pub queue-IsSound :
    (s u : Scheduler)
    → u.tasks ≡ s.tasks
    → IsWell u.run_queue
    → ((i l id : ℕ)
        → get l (tree_at u.run_queue i).tree ≡ some id
        → get l (tree_at s.run_queue i).tree ≡ some id)
    → IsSound s
    → IsSound u
queue-IsSound s u e w from v = record {
  well = w;
  listed = λ i l id g. subst (λ m. Listed m id) (sym e) (v.listed i l id (from i l id g));
  named =
      subst (λ m. (id : ℕ) (t : TaskControlBlock) → get id m ≡ some t → t.id ≡ id) (sym e) v.named;
}

pub insert-IsSound :
    (s u : Scheduler) (t : TaskControlBlock)
    → t.id ≡ s.next_task_id
    → u.tasks ≡ insert s.next_task_id t s.tasks
    → u.run_queue ≡ s.run_queue
    → IsSound s
    → IsSound u
insert-IsSound s u t own e q v = record {
  well = rw q v.well;
  listed = λ i l id g. rw e (still id (v.listed i l id (rw (← q) g)));
  named = λ id x g. ground (arith, get-insert s.next_task_id id t s.tasks, v.named id x, e, g, own);
}
  where
    still : (id : ℕ) → Listed s.tasks id → Listed (insert s.next_task_id t s.tasks) id
    still id (x, g) = elim (ℕ_discrete s.next_task_id id) [
      | yes d ↦ (t, ground (arith, get-insert s.next_task_id id t s.tasks, d))
      | no d ↦ (x, ground (arith, get-insert s.next_task_id id t s.tasks, d, g))
    ]

abbrev pub IsSound? : Option Scheduler → Type 0
IsSound? none = Unit {0}
IsSound? (some s) = IsSound s

-- Making a task of the table ready keeps the invariant, when it returns.
pub make_ready-IsSound :
    (s : Scheduler) (id : ℕ) (t task : TaskControlBlock)
    → get id s.tasks ≡ some t
    → SameTask t task
    → IsSound s
    → IsSound? (make_ready s id task)
unfolding make_ready
make_ready-IsSound s id t task e same v = after _ (enqueue-Adds s.run_queue now v.well)
  where
    now : TaskControlBlock
    now = record task { state = ready }

    own : task.id ≡ id
    own = same.same_id ∙ v.named id t e

    kept : (x : TaskControlBlock) → get id s.tasks ≡ some x → SameTask x now
    kept x g = ground (arith, e, g, same)

    after : (o : Option RunQueue) → Adds s.run_queue now o → IsSound? (with_queue (put s id now) o)
    after none a = tt
    after (some r) (w, c, k, at, old, only) = record {
      well = w;
      listed = λ i l other g. listed i l other (only l other i g);
      named = update_named s.tasks id (λ _. now) kept v.named;
    }
      where
        listed :
            (i l other : ℕ)
            → (get l (tree_at s.run_queue i).tree ≡ some other)
              ⊎ ((other ≡ task.id) × (i ≡ index task.sched_info.priority))
            → Listed (update id (λ _. now) s.tasks) other
        listed i l other (inl g) =
            update-Listed s.tasks id (λ _. now) kept other (v.listed i l other g)
        listed i l other (inr (p, q)) =
            (now, ground (arith, get-update id other (λ _. now) s.tasks, e, own, p))
