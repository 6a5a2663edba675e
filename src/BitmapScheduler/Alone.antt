-- ===== src/BitmapScheduler/Alone.antt =====
-- A call that runs alone is a sequence of the steps that calls are interleaved from.
use omniagent_os.Base.{
  ℕ, zero, suc, ◌+◌, ◌≤◌, ◌<◌, ◌≡◌, refl, List, [], ◌∷◌, arith, ◌==◌, leb, Bool-cases, inl, inr,
}
use omniagent_os.Base.Bits.{trailing_zeros}
use omniagent_os.BitmapScheduler.{
  BitmapScheduler, queue, enqueue, pop_front, pick_next, contains, remove_first, write_back,
  dequeue_from, dequeue,
}
use omniagent_os.BitmapScheduler.Interleaving.{
  World, put_queue, emptied, pushed, published, loads, popped, missed, removed, cleared, counted,
  Reach, here, next,
}

-- No other call is under way.
abbrev pub alone : BitmapScheduler → World
alone s = record { sched = s; pending = []; loaded = []; locked = [] }

pub Reach-trans : {u v w : World} → Reach u v → Reach v w → Reach u w
Reach-trans r here = r
Reach-trans r (next q s) = next (Reach-trans r q) s

-- After a queue lost a task, its bit is cleared if it has no other.
took :
    (w : World) (s : BitmapScheduler) (p : ℕ) (q : List ℕ)
    → Reach w
        (record { sched = put_queue s p q; pending = []; loaded = []; locked = emptied p q [] })
    → Reach w (alone (write_back s p q))
unfolding write_back
took w s p [] r = next r (cleared [] [] p refl)
took w s p (t ∷ q) r = r

pub enqueue-Reach : (s : BitmapScheduler) (t p : ℕ) → Reach (alone s) (alone (enqueue s t p).1)
unfolding enqueue
enqueue-Reach s t p = elim (Bool-cases (leb 32 p)) [
  | inl y ↦ simp y here
  | inr n ↦
      let small : p < 32 = ground (arith, n) in
      simp n (next (next here (pushed t p small refl)) (published [] [] p small refl))
]

pub pick_next-Reach : (s : BitmapScheduler) → Reach (alone s) (alone (pick_next s).1)
unfolding pick_next pop_front
pick_next-Reach s = elim (Bool-cases (s.priority_bitmap == 0)) [
  | inl y ↦ simp y here
  | inr n ↦ simp n (
      at (queue s (trailing_zeros 32 s.priority_bitmap)) refl
        (next here (loads (λ e. absurd (ground (arith, n, e))))))
]
  where
    at :
        (q : List ℕ)
        → queue s (trailing_zeros 32 s.priority_bitmap) ≡ q
        → Reach
            (alone s)
            (record { sched = s; pending = []; loaded = s.priority_bitmap ∷ []; locked = [] })
        → Reach (alone s) (alone (pop_front s (trailing_zeros 32 s.priority_bitmap) q).1)
    at [] e r = next r (missed [] [] s.priority_bitmap refl refl e)
    at (t ∷ rest) e r =
        next
          (took (alone s) s (trailing_zeros 32 s.priority_bitmap) rest
            (next r (popped [] [] s.priority_bitmap t rest refl refl e)))
          (counted t)

dequeue_from-Reach :
    (n p : ℕ) (s : BitmapScheduler) (t : ℕ)
    → p + n ≤ 32
    → Reach (alone s) (alone (dequeue_from n p s t).1)
unfolding dequeue_from
dequeue_from-Reach zero p s t h = here
dequeue_from-Reach (suc n) p s t h = elim (Bool-cases (contains t (queue s p))) [
  | inl y ↦ simp y (
      took (alone s) s p (remove_first t (queue s p))
        (next here (removed t p (omega (arith, h)) refl y)))
  | inr k ↦ simp k (dequeue_from-Reach n (suc p) s t (omega (arith, h)))
]

pub dequeue-Reach : (s : BitmapScheduler) (t : ℕ) → Reach (alone s) (alone (dequeue s t).1)
unfolding dequeue
dequeue-Reach s t = dequeue_from-Reach 32 0 s t (omega arith)
