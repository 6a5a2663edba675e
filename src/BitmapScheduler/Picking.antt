-- ===== src/BitmapScheduler/Picking.antt =====
-- `pick_next` against the list of all ready tasks, the highest priority first and each queue in
-- its own order.
use omniagent_os.Base.{
  ℕ, zero, suc, ◌+◌, ◌<◌, ◌≤◌, ◌≡◌, refl, sym, ap, ◌∙◌, true, false, not, Option, none, some, List,
  [], ◌∷◌, ◌++◌, arith, ◌==◌, length, get_or, set, is_empty, Bool-cases, inl, inr,
}
use omniagent_os.Base.Bits.{is_bit_set, trailing_zeros, is_bit_set-zero}
use omniagent_os.Base.Bits.Counts.{trailing_zeros-is_bit_set, lt-trailing_zeros}
use omniagent_os.BitmapScheduler.{
  BitmapScheduler, queue, write_back, account, pop_front, pick_next, u64,
}
use omniagent_os.BitmapScheduler.Invariant.{IsConsistent, write_back-IsConsistent}

abbrev pub flatten : List (List ℕ) → List ℕ
flatten [] = []
flatten (q ∷ qs) = q ++ flatten qs

-- Every ready task, in the order in which they are to run.
unfoldable pub ready : BitmapScheduler → List ℕ
ready s = flatten s.queues

flatten-set :
    (qs : List (List ℕ)) (p t : ℕ) (rest : List ℕ)
    → get_or qs p [] ≡ t ∷ rest
    → ((j : ℕ) → j < p → get_or qs j [] ≡ [])
    → flatten qs ≡ t ∷ flatten (set qs p rest)
flatten-set [] p t rest e h = absurd (cc e)
flatten-set (q ∷ qs) zero t rest e h = rw e
flatten-set (q ∷ qs) (suc p) t rest e h =
    rw (h 0 (omega arith)) (flatten-set qs p t rest e (λ j l. h (suc j) (omega arith)))

flatten-nil :
    (qs : List (List ℕ)) → ((j : ℕ) → j < length qs → get_or qs j [] ≡ []) → flatten qs ≡ []
flatten-nil [] h = refl
flatten-nil (q ∷ qs) h = rw (h 0 (omega arith)) (flatten-nil qs (λ j l. h (suc j) (omega arith)))

empty_of_clear : (q : List ℕ) → not (is_empty q) ≡ false → q ≡ []
empty_of_clear [] h = refl
empty_of_clear (x ∷ q) h = absurd (cc h)

ready_of_zero : (s : BitmapScheduler) → IsConsistent s → s.priority_bitmap ≡ 0 → ready s ≡ []
unfolding ready
ready_of_zero s v e = flatten-nil s.queues λ j l.
    empty_of_clear (queue s j)
      (sym (v.agree j (omega (arith, v.size))) ∙ ap (λ w. is_bit_set w j) e ∙ is_bit_set-zero j)

-- What `pick_next` returns and leaves, against the ready tasks.
abbrev pub Picks : BitmapScheduler → Option ℕ × BitmapScheduler → Type 0
Picks s (none, s') = (ready s ≡ []) × (s' ≡ s)
Picks s (some t, s') =
    (ready s ≡ t ∷ ready s')
    × IsConsistent s'
    × (s'.total_schedules ≡ u64 (s.total_schedules + 1))
    × (s'.running ≡ s.running)

pop_front-Picks :
    (s : BitmapScheduler) (p : ℕ) (q : List ℕ)
    → IsConsistent s
    → p < 32
    → is_bit_set s.priority_bitmap p ≡ true
    → ((j : ℕ) → j < p → queue s j ≡ [])
    → queue s p ≡ q
    → Picks s (pop_front s p q)
unfolding pop_front ready
pop_front-Picks s p [] v h b below e = absurd (cc (v.agree p h, b, ap is_empty e))
pop_front-Picks s p (t ∷ rest) v h b below e =
    let w = write_back-IsConsistent s p rest h b v in
    (
      unfold account write_back in flatten-set s.queues p t rest e below,
      unfold account in record { size = w.size; word = w.word; agree = w.agree },
      unfold account write_back in refl,
      unfold account write_back in refl,
    )

-- The next task is the first of the ready ones, which `pick_next` takes off and leaves the others
-- in order; it returns none exactly when no task is ready.
pub pick_next-Picks : (s : BitmapScheduler) → IsConsistent s → Picks s (pick_next s)
unfolding pick_next
pick_next-Picks s v = elim (Bool-cases (s.priority_bitmap == 0)) [
  | inl e ↦ rw (e, pick_next) (ready_of_zero s v (ground arith), refl)
  | inr n ↦
      let (b, h) = trailing_zeros-is_bit_set 32 s.priority_bitmap v.word (ground arith) in
      rw (n, pick_next)
        (pop_front-Picks s (trailing_zeros 32 s.priority_bitmap) _ v h b
          (λ j l.
            empty_of_clear _
              (sym (v.agree j (omega arith)) ∙ lt-trailing_zeros 32 s.priority_bitmap j l))
          refl)
]

-- Nothing was picked, or a task and then what follows.
abbrev then_drain : (BitmapScheduler → List ℕ) → Option ℕ × BitmapScheduler → List ℕ
then_drain follow (none, s') = []
then_drain follow (some t, s') = t ∷ follow s'

-- A client that picks until no task is left.
unfoldable pub drain : ℕ → BitmapScheduler → List ℕ
drain zero s = []
drain (suc n) s = then_drain (drain n) (pick_next s)

nil_of_length : (xs : List ℕ) → length xs ≤ 0 → xs ≡ []
nil_of_length [] h = refl
nil_of_length (x ∷ xs) h = absurd (omega arith)

drain_step :
    (n : ℕ) (s : BitmapScheduler) (r : Option ℕ × BitmapScheduler)
    → pick_next s ≡ r
    → Picks s r
    → length (ready s) ≤ suc n
    → ((s' : BitmapScheduler) → IsConsistent s' → length (ready s') ≤ n → drain n s' ≡ ready s')
    → drain (suc n) s ≡ ready s
unfolding drain
drain_step n s (none, s') e p h ih = ap (then_drain (drain n)) e ∙ sym p.0
drain_step n s (some t, s') e p h ih =
    ap (then_drain (drain n)) e ∙ (ap (◌∷◌ t) (ih s' p.1 (omega (arith, ap length p.0))) ∙ sym p.0)

-- Picking until nothing is left runs every ready task once: by priority, and in the order of
-- arrival within one.
pub drain-ready :
    (n : ℕ) (s : BitmapScheduler) → IsConsistent s → length (ready s) ≤ n → drain n s ≡ ready s
drain-ready zero s v h = unfold drain in sym (nil_of_length (ready s) h)
drain-ready (suc n) s v h =
    drain_step n s (pick_next s) refl (pick_next-Picks s v) h (drain-ready n)
