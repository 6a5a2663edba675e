-- ===== src/BitmapScheduler/Queues.antt =====
-- What `enqueue`, `dequeue` and `yield_task` do to each queue.
use omniagent_os.Base.{
  get_or-set, ℕ, zero, suc, ◌+◌, ◌<◌, ◌≤◌, ◌≡◌, refl, ◌⊎◌, true, false, [], ◌∷◌, ◌++◌, arith, leb,
  ◌==◌, if◌then◌else◌, length, Result, ok, err, Bool-cases, inl, inr, ℕ_discrete,
}
use omniagent_os.BitmapScheduler.{
  BitmapScheduler, SchedulerError, invalid_priority, task_not_found, queue, enqueue, dequeue_from,
  dequeue, contains, remove_first,
}
use omniagent_os.BitmapScheduler.Invariant.{IsConsistent}

-- A task goes to the end of its priority's queue and no other queue changes; a priority above 31
-- is refused and changes nothing.
pub enqueue_lem :
    (s : BitmapScheduler) (t p : ℕ)
    → IsConsistent s
    → ((p < 32)
        × ((enqueue s t p).0 ≡ ok tt)
        × ((j : ℕ)
            → queue (enqueue s t p).1 j ≡ (if j == p then queue s p ++ t ∷ [] else queue s j)))
      ⊎ ((32 ≤ p) × (enqueue s t p ≡ (err (invalid_priority p), s)))
unfolding enqueue
enqueue_lem s t p v = elim (Bool-cases (leb 32 p)) [
  | inl big ↦ inr (ground arith, ground arith)
  | inr small ↦ inl (
    ground arith,
    ground arith,
    λ j. ground (arith, v.size, get_or-set s.queues p j (queue s p ++ t ∷ []) []),
  )
]

-- What a removal of t does, over the priorities from p up to p + n.
abbrev pub Removes :
    ℕ → ℕ → BitmapScheduler → ℕ → Result (Unit {0}) SchedulerError × BitmapScheduler → Type 0
Removes n p s t (ok _, s') =
    (k : ℕ) × (p ≤ k)
    × (k < p + n)
    × (contains t (queue s k) ≡ true)
    × ((j : ℕ) → p ≤ j → j < k → contains t (queue s j) ≡ false)
    × ((j : ℕ) → queue s' j ≡ (if j == k then remove_first t (queue s k) else queue s j))
Removes n p s t (err e, s') =
    (e ≡ task_not_found t)
    × (s' ≡ s)
    × ((j : ℕ) → p ≤ j → j < p + n → contains t (queue s j) ≡ false)

Removes-later :
    (n p : ℕ) (s : BitmapScheduler) (t : ℕ) (r : Result (Unit {0}) SchedulerError × BitmapScheduler)
    → contains t (queue s p) ≡ false
    → Removes n (suc p) s t r
    → Removes (suc n) p s t r
Removes-later n p s t (ok u, s') missing (k, l, b, c, before, q) = (
  k,
  omega arith,
  omega arith,
  c,
  λ j g h. elim (ℕ_discrete j p) [ yes e ↦ rw e missing | no ne ↦ before j (omega arith) h ],
  q,
)
Removes-later n p s t (err e, s') missing (a, b, c) = (
  a,
  b,
  λ j g h. elim (ℕ_discrete j p) [ yes e ↦ rw e missing | no ne ↦ c j (omega arith) (omega arith) ],
)

dequeue_from-Removes :
    (n p : ℕ) (s : BitmapScheduler) (t : ℕ)
    → p + n ≤ length s.queues
    → Removes n p s t (dequeue_from n p s t)
unfolding dequeue_from
dequeue_from-Removes zero p s t h = (refl, refl, λ j g l. absurd (omega arith))
dequeue_from-Removes (suc n) p s t h = elim (Bool-cases (contains t (queue s p))) [
  | inl here ↦
      rw (here, dequeue_from)
        (
          p,
          omega arith,
          omega arith,
          here,
          λ j g l. absurd (omega arith),
          λ j. get_or-set s.queues p j (remove_first t (queue s p)) [] (omega arith),
        )
  | inr missing ↦
      rw (missing, dequeue_from)
        (Removes-later n p s t _ missing (dequeue_from-Removes n (suc p) s t (omega arith)))
]

-- Removing a task takes its first occurrence out of the highest priority that has it, and changes
-- no other queue; it fails, and changes nothing, exactly when no queue has the task.
pub dequeue-Removes :
    (s : BitmapScheduler) (t : ℕ) → IsConsistent s → Removes 32 0 s t (dequeue s t)
unfolding dequeue
dequeue-Removes s t v = dequeue_from-Removes 32 0 s t (omega (arith, v.size))
