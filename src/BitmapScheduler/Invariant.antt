-- ===== src/BitmapScheduler/Invariant.antt =====
-- The bitmap tells which queues hold a task: the invariant, and that each operation keeps it.
use omniagent_os.Base.{
  ℕ, zero, suc, ◌+◌, ◌^◌, ◌<◌, ◌≤◌, ◌≡◌, refl, true, false, not, List, [], ◌∷◌, ◌++◌, arith, leb,
  length, get_or, replicate, is_empty, inl, inr, length-set, length-replicate, get_or-set,
  Bool-cases,
}
use omniagent_os.Base.Bits.{
  is_bit_set, is_bit_set-zero, is_bit_set-set_bit, is_bit_set-clear_bit, set_bit-lt, clear_bit-lt,
}
use omniagent_os.BitmapScheduler.{
  BitmapScheduler, new, queue, enqueue, write_back, dequeue_from, dequeue, remove_first, contains,
}

pub record IsConsistent (s : BitmapScheduler) : Type 0 where
  pub size : length s.queues ≡ 32
  pub word : s.priority_bitmap < 2 ^ 32
  pub agree : (p : ℕ) → p < 32 → is_bit_set s.priority_bitmap p ≡ not (is_empty (queue s p))

empty_queue : (n p : ℕ) → get_or {A = List ℕ} (replicate n []) p [] ≡ []
empty_queue zero p = refl
empty_queue (suc n) zero = refl
empty_queue (suc n) (suc p) = empty_queue n p

pub new-IsConsistent : IsConsistent new
unfolding new
new-IsConsistent = record {
  size = length-replicate {A = List ℕ} 32 [];
  word = omega arith;
  agree = λ p h. ground (arith, is_bit_set-zero p, empty_queue 32 p);
}

append-ne-nil : (q : List ℕ) (t : ℕ) → is_empty (q ++ t ∷ []) ≡ false
append-ne-nil [] t = refl
append-ne-nil (x ∷ q) t = refl

pub enqueue-IsConsistent :
    (s : BitmapScheduler) (t p : ℕ) → IsConsistent s → IsConsistent (enqueue s t p).1
unfolding enqueue
enqueue-IsConsistent s t p v = elim (Bool-cases (leb 32 p)) [
  | inl big ↦ rw (big, enqueue) v
  | inr small ↦
      rw (small, enqueue)
        (record {
          size = ground (arith, v.size, length-set s.queues p (queue s p ++ t ∷ []));
          word = set_bit-lt 32 s.priority_bitmap p v.word (ground arith);
          agree = λ j h. ground (
            arith,
            v.size,
            v.agree j h,
            is_bit_set-set_bit s.priority_bitmap p j,
            get_or-set s.queues p j (queue s p ++ t ∷ []) [],
            append-ne-nil (queue s p) t,
          );
        })
]

pub write_back-IsConsistent :
    (s : BitmapScheduler) (p : ℕ) (q : List ℕ)
    → p < 32
    → is_bit_set s.priority_bitmap p ≡ true
    → IsConsistent s
    → IsConsistent (write_back s p q)
unfolding write_back
write_back-IsConsistent s p q h b v = record {
  size = ground (arith, v.size, length-set s.queues p q);
  word = ground (arith, v.word, clear_bit-lt 32 s.priority_bitmap p v.word);
  agree = λ j l. ground (
    arith,
    v.size,
    v.agree j l,
    is_bit_set-clear_bit 32 s.priority_bitmap p j h l,
    get_or-set s.queues p j q [],
  );
}

pub nonempty_of_contains : (t : ℕ) (q : List ℕ) → contains t q ≡ true → is_empty q ≡ false
unfolding contains
nonempty_of_contains t [] h = cc
nonempty_of_contains t (x ∷ q) h = refl

dequeue_from-IsConsistent :
    (n p : ℕ) (s : BitmapScheduler) (t : ℕ)
    → p + n ≤ 32
    → IsConsistent s
    → IsConsistent (dequeue_from n p s t).1
unfolding dequeue_from
dequeue_from-IsConsistent zero p s t h v = v
dequeue_from-IsConsistent (suc n) p s t h v = elim (Bool-cases (contains t (queue s p))) [
  | inl found ↦ rw found (
      write_back-IsConsistent s p (remove_first t (queue s p)) (omega arith)
        (ground (arith, v.agree p (omega arith), nonempty_of_contains t (queue s p) found)) v)
  | inr missing ↦ rw missing (dequeue_from-IsConsistent n (suc p) s t (omega arith) v)
]

pub dequeue-IsConsistent :
    (s : BitmapScheduler) (t : ℕ) → IsConsistent s → IsConsistent (dequeue s t).1
unfolding dequeue
dequeue-IsConsistent s t v = dequeue_from-IsConsistent 32 0 s t (omega arith) v
