-- ===== src/BitmapScheduler/Examples.antt =====
-- Runs of the bitmap scheduler, alone and interleaved, and the theorems at what they reach.
use omniagent_os.Base.{◌≡◌, refl, true, false, [], ◌∷◌, arith, err, ◌⊎◌}
use omniagent_os.Base.Bits.{is_bit_set, set_bit, clear_bit, trailing_zeros}
use omniagent_os.BitmapScheduler.{
  BitmapScheduler, new, queue, push, publish, enqueue, dequeue, pick_next, account, task_not_found,
  contains,
}
use omniagent_os.BitmapScheduler.Invariant.{
  IsConsistent, new-IsConsistent, enqueue-IsConsistent, dequeue-IsConsistent,
}
use omniagent_os.BitmapScheduler.Picking.{Picks, ready, drain, pick_next-Picks}
use omniagent_os.BitmapScheduler.Interleaving.{
  World, start, put_queue, clear, pushed, published, loads, popped, missed, cleared, counted, Reach,
  here, next, Reach-covered,
}

-- Tasks 5 and 7 at priority 2, and task 6 at priority 0.
loaded : BitmapScheduler
loaded = (enqueue (enqueue (enqueue new 5 2).1 6 0).1 7 2).1

loaded-IsConsistent : IsConsistent loaded
unfolding loaded
loaded-IsConsistent =
    enqueue-IsConsistent _ 7 2
      (enqueue-IsConsistent _ 6 0 (enqueue-IsConsistent new 5 2 new-IsConsistent))

ready-loaded : ready loaded ≡ 6 ∷ 5 ∷ 7 ∷ []
unfolding ready loaded enqueue new
ready-loaded = refl

drain-loaded : drain 3 loaded ≡ 6 ∷ 5 ∷ 7 ∷ []
unfolding drain ready loaded enqueue new pick_next set_bit clear_bit trailing_zeros
drain-loaded = refl

dequeue_missing : (dequeue loaded 9).0 ≡ err (task_not_found 9)
unfolding loaded enqueue new dequeue contains
dequeue_missing = refl

dequeue-IsConsistent_example : IsConsistent (dequeue loaded 6).1
dequeue-IsConsistent_example = dequeue-IsConsistent loaded 6 loaded-IsConsistent

pick_next-Picks_example : Picks loaded (pick_next loaded)
pick_next-Picks_example = pick_next-Picks loaded loaded-IsConsistent

-- A second enqueue at priority 0 is half done when both of its tasks are picked; a third pick has
-- loaded the bitmap before the bit is cleared, and finds no task; the bit of the second enqueue comes
-- last, over an empty queue. Task 7 waits at priority 1.
abbrev crossed : World
crossed = record {
  sched =
      publish
        (push
          (publish
            (account
              (clear
                (put_queue (account (put_queue (push (publish (push new 5 0) 0) 6 0) 0 (6 ∷ [])) 5)
                  0 [])
                0)
              6)
            0)
          7 1)
        1;
  pending = [];
  loaded = [];
  locked = [];
}

abbrev half_done : World
half_done = record {
  sched = push (publish (push new 5 0) 0) 6 0;
  pending = 0 ∷ [];
  loaded = [];
  locked = [];
}

Reach-half_done : Reach start half_done
Reach-half_done =
    next (next (next here (pushed 5 0 (omega arith) refl)) (published [] [] 0 (omega arith) refl))
      (pushed 6 0 (omega arith) refl)

abbrev picked_twice : World
picked_twice = record {
  sched = put_queue (account (put_queue half_done.sched 0 (6 ∷ [])) 5) 0 [];
  pending = 0 ∷ [];
  loaded = [];
  locked = 0 ∷ [];
}

Reach-picked_twice : Reach start picked_twice
unfolding new push publish account set_bit trailing_zeros
Reach-picked_twice =
    next
      (next
        (next
          (next (next Reach-half_done (loads (λ e. absurd (omega (arith, e)))))
            (popped [] [] 1 5 (6 ∷ []) refl refl refl))
          (counted 5))
        (loads (λ e. absurd (omega (arith, e)))))
      (popped [] [] 1 6 [] refl refl refl)

Reach-crossed : Reach start crossed
unfolding new push publish account set_bit clear_bit trailing_zeros
Reach-crossed =
    next
      (next
        (next
          (next
            (next
              (next (next Reach-picked_twice (loads (λ e. absurd (omega (arith, e)))))
                (cleared [] [] 0 refl))
              (missed [] [] 1 refl refl refl))
            (counted 6))
          (published [] [] 0 (omega arith) refl))
        (pushed 7 1 (omega arith) refl))
      (published [] [] 1 (omega arith) refl)

waits : queue crossed.sched 1 ≡ 7 ∷ []
unfolding new push publish account
waits = refl

Reach-covered_example : (is_bit_set crossed.sched.priority_bitmap 1 ≡ true) ⊎ (false ≡ true)
unfolding new push publish account
Reach-covered_example = Reach-covered 1 Reach-crossed (omega arith) refl
