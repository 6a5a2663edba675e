-- ===== src/BitmapScheduler/Interleaving.antt =====
-- Several processors. What one does without another seeing a part of it is a step: a push to a queue
-- and a removal from one, under its lock, and each access to the bitmap. A queue that was emptied is
-- locked until its bit is cleared. A removal may look at the queues in any order here, and a task be
-- counted in the statistics at any time.
use omniagent_os.Base.{
  get_or-set, ℕ, ◌^◌, ◌<◌, ◌≡◌, ◌≢◌, refl, sym, ap, ◌∙◌, ℕ_discrete, ◌⊎◌, Bool, true, false, ◌||◌,
  none, List, [], ◌∷◌, ◌++◌, arith, ◌==◌, length, get_or, set, is_empty, length-set, if◌then◌else◌,
}
use omniagent_os.Base.Bits.{
  is_bit_set, trailing_zeros, clear_bit, is_bit_set-set_bit, is_bit_set-clear_bit, set_bit-lt,
  clear_bit-lt,
}
use omniagent_os.Base.Bits.Counts.{trailing_zeros-is_bit_set}
use omniagent_os.BitmapScheduler.{
  BitmapScheduler, queue, push, publish, account, pop_front, pick_next, contains, remove_first, new,
}
use omniagent_os.BitmapScheduler.Invariant.{nonempty_of_contains, new-IsConsistent}

-- `queue.pop_front()` or `queue.remove(pos)`: the queue without the task.
abbrev pub put_queue : BitmapScheduler → ℕ → List ℕ → BitmapScheduler
put_queue s priority q = record s { queues = set s.queues priority q }

-- `fetch_and(!(1u32 << priority))`
abbrev pub clear : BitmapScheduler → ℕ → BitmapScheduler
clear s priority = record s { priority_bitmap = clear_bit 32 s.priority_bitmap priority }

abbrev pub is_among : ℕ → List ℕ → Bool
is_among p [] = false
is_among p (q ∷ qs) = q == p || is_among p qs

-- The scheduler; the priorities that have a task for which the bit is still to be set; the bitmaps
-- that picks have loaded; and the priorities whose queue is locked and was emptied, and whose bit is
-- still to be cleared.
pub record World : Type 0 where
  pub sched : BitmapScheduler
  pub pending : List ℕ
  pub loaded : List ℕ
  pub locked : List ℕ

-- The lock is kept if the queue is empty now.
abbrev pub emptied : ℕ → List ℕ → List ℕ → List ℕ
emptied p q locked = if is_empty q then p ∷ locked else locked

pub data Step (w : World) : World → Type 0 where
  pushed :
      (t p : ℕ)
      → p < 32
      → is_among p w.locked ≡ false
      → Step w (record w { sched = push w.sched t p; pending = p ∷ w.pending })
  published :
      (xs ys : List ℕ) (p : ℕ)
      → p < 32
      → w.pending ≡ xs ++ p ∷ ys
      → Step w (record w { sched = publish w.sched p; pending = xs ++ ys })
  loads :
      w.sched.priority_bitmap ≢ 0
      → Step w (record w { loaded = w.sched.priority_bitmap ∷ w.loaded })
  popped :
      (xs ys : List ℕ) (b t : ℕ) (rest : List ℕ)
      → w.loaded ≡ xs ++ b ∷ ys
      → is_among (trailing_zeros 32 b) w.locked ≡ false
      → queue w.sched (trailing_zeros 32 b) ≡ t ∷ rest
      → Step w (record w {
        sched = put_queue w.sched (trailing_zeros 32 b) rest;
        loaded = xs ++ ys;
        locked = emptied (trailing_zeros 32 b) rest w.locked;
      })
  missed :
      (xs ys : List ℕ) (b : ℕ)
      → w.loaded ≡ xs ++ b ∷ ys
      → is_among (trailing_zeros 32 b) w.locked ≡ false
      → queue w.sched (trailing_zeros 32 b) ≡ []
      → Step w (record w { loaded = xs ++ ys })
  removed :
      (t p : ℕ)
      → p < 32
      → is_among p w.locked ≡ false
      → contains t (queue w.sched p) ≡ true
      → Step w (record w {
        sched = put_queue w.sched p (remove_first t (queue w.sched p));
        locked = emptied p (remove_first t (queue w.sched p)) w.locked;
      })
  cleared :
      (xs ys : List ℕ) (p : ℕ)
      → w.locked ≡ xs ++ p ∷ ys
      → Step w (record w { sched = clear w.sched p; locked = xs ++ ys })
  counted : (t : ℕ) → Step w (record w { sched = account w.sched t })

pub data Reach (w : World) : World → Type 0 where
  here : Reach w w
  next : {u v : World} → Reach w u → Step u v → Reach w v

-- A queue that holds a task has its bit set, or is about to; one that is locked holds none.
pub record IsReachable (w : World) : Type 0 where
  pub size : length w.sched.queues ≡ 32
  pub word : w.sched.priority_bitmap < 2 ^ 32
  pub words : (b : ℕ) → is_among b w.loaded ≡ true → (b ≢ 0) × (b < 2 ^ 32)
  pub idle : (p : ℕ) → is_among p w.locked ≡ true → (p < 32) × (is_empty (queue w.sched p) ≡ true)
  pub covered :
      (p : ℕ)
      → p < 32
      → is_empty (queue w.sched p) ≡ false
      → is_bit_set w.sched.priority_bitmap p || is_among p w.pending ≡ true

is_among-append :
    (p q : ℕ) (xs ys : List ℕ) → is_among q (xs ++ p ∷ ys) ≡ (p == q || is_among q (xs ++ ys))
is_among-append p q [] ys = refl
is_among-append p q (x ∷ xs) ys = ground (arith, is_among-append p q xs ys)

-- A bitmap that was loaded has a least bit below 32.
loaded_lem :
    (w : World) (xs ys : List ℕ) (b : ℕ)
    → IsReachable w
    → w.loaded ≡ xs ++ b ∷ ys
    → (trailing_zeros 32 b < 32) × ((c : ℕ) → is_among c (xs ++ ys) ≡ true → (c ≢ 0) × (c < 2 ^ 32))
loaded_lem w xs ys b v e =
    let own : is_among b w.loaded ≡ true =
      ap (is_among b) e ∙ is_among-append b b xs ys ∙ ground arith in
    let (some_bit, small) = v.words b own in
    (
      (trailing_zeros-is_bit_set 32 b small some_bit).1,
      λ c i. v.words c (ap (is_among c) e ∙ is_among-append b c xs ys ∙ ground (arith, i)),
    )

-- A queue that is not locked loses a task, and is locked if it has no other.
put_queue-IsReachable :
    (w : World) (p : ℕ) (q : List ℕ)
    → p < 32
    → is_among p w.locked ≡ false
    → is_empty (queue w.sched p) ≡ false
    → IsReachable w
    → IsReachable (record w { sched = put_queue w.sched p q; locked = emptied p q w.locked })
put_queue-IsReachable w p q h free b v = record {
  size = ground (arith, v.size, length-set w.sched.queues p q);
  word = v.word;
  words = v.words;
  idle = λ j l. elim (ℕ_discrete j p) [
    | yes e ↦
        let free' : is_among j w.locked ≡ false = ap (λ x. is_among x w.locked) e ∙ free in
        ground (arith, l, e, h, v.size, free', get_or-set w.sched.queues p j q [])
    | no n ↦ ground (arith, l, n, h, v.size, v.idle j, get_or-set w.sched.queues p j q [])
  ];
  covered = λ j k e.
      ground (arith, v.size, v.covered j k, v.covered p h b, get_or-set w.sched.queues p j q []);
}

Step-IsReachable : {w u : World} → Step w u → IsReachable w → IsReachable u
unfolding push publish
Step-IsReachable {w} (pushed t p h free) v =
    let s = w.sched in
    record {
      size = ground (arith, v.size, length-set s.queues p (queue s p ++ t ∷ []));
      word = v.word;
      words = v.words;
      idle = λ j l. elim (ℕ_discrete j p) [
        | yes e ↦ absurd (cc (sym l, ap (λ x. is_among x w.locked) e, free))
        | no n ↦
            ground
              (arith, l, n, h, v.size, v.idle j, get_or-set s.queues p j (queue s p ++ t ∷ []) [])
      ];
      covered = λ j k e.
          ground (arith, v.size, v.covered j k, get_or-set s.queues p j (queue s p ++ t ∷ []) []);
    }
Step-IsReachable {w} (published xs ys p h e) v = record {
  size = v.size;
  word = set_bit-lt 32 w.sched.priority_bitmap p v.word h;
  words = v.words;
  idle = v.idle;
  covered = λ j k f. ground (
    arith,
    v.covered j k f,
    ap (is_among j) e,
    is_among-append p j xs ys,
    is_bit_set-set_bit w.sched.priority_bitmap p j,
  );
}
Step-IsReachable {w} (loads n) v = record {
  size = v.size;
  word = v.word;
  words = λ b i. elim (ℕ_discrete b w.sched.priority_bitmap) [
    | yes e ↦ (λ z. n (sym e ∙ z), omega (arith, e, v.word))
    | no d ↦ v.words b (ground (arith, i, d))
  ];
  idle = v.idle;
  covered = v.covered;
}
Step-IsReachable {w} (popped xs ys b t rest e free q) v =
    let (h, words) = loaded_lem w xs ys b v e in
    let u = put_queue-IsReachable w (trailing_zeros 32 b) rest h free (ap is_empty q) v in
    record { size = u.size; word = u.word; words = words; idle = u.idle; covered = u.covered }
Step-IsReachable {w} (missed xs ys b e free q) v =
    let (h, words) = loaded_lem w xs ys b v e in
    record { size = v.size; word = v.word; words = words; idle = v.idle; covered = v.covered }
Step-IsReachable {w} (removed t p h free found) v =
    put_queue-IsReachable w p (remove_first t (queue w.sched p)) h free
      (nonempty_of_contains t (queue w.sched p) found) v
Step-IsReachable {w} (cleared xs ys p e) v =
    let own : is_among p w.locked ≡ true =
      ap (is_among p) e ∙ is_among-append p p xs ys ∙ ground arith in
    let (h, none_there) = v.idle p own in
    record {
      size = v.size;
      word = clear_bit-lt 32 w.sched.priority_bitmap p v.word;
      words = v.words;
      idle = λ j l. v.idle j (ap (is_among j) e ∙ is_among-append p j xs ys ∙ ground (arith, l));
      covered = λ j k f. elim (ℕ_discrete j p) [
        | yes d ↦
            let none_here : is_empty (queue w.sched j) ≡ true =
              ap (λ x. is_empty (queue w.sched x)) d ∙ none_there in
            absurd (cc (sym f ∙ none_here))
        | no n ↦
            ground
              (arith, n, v.covered j k f, is_bit_set-clear_bit 32 w.sched.priority_bitmap p j h k)
      ];
    }
Step-IsReachable {w} (counted t) v =
    unfold account in
    record { size = v.size; word = v.word; words = v.words; idle = v.idle; covered = v.covered }

pub Reach-IsReachable : {w u : World} → IsReachable w → Reach w u → IsReachable u
Reach-IsReachable v here = v
Reach-IsReachable v (next r s) = Step-IsReachable s (Reach-IsReachable v r)

abbrev pub start : World
start = record { sched = new; pending = []; loaded = []; locked = [] }

-- However the steps of enqueues, picks and removals interleave from a new scheduler, a queue that
-- holds a task has its bit set, or the enqueue that will set it is still under way.
pub Reach-covered :
    {w : World} (p : ℕ)
    → Reach start w
    → p < 32
    → is_empty (queue w.sched p) ≡ false
    → (is_bit_set w.sched.priority_bitmap p ≡ true) ⊎ (is_among p w.pending ≡ true)
Reach-covered {w} p r h e = ground (arith, (Reach-IsReachable init r).covered p h e)
  where
    init : IsReachable start
    init = record {
      size = new-IsConsistent.size;
      word = new-IsConsistent.word;
      words = λ b i. absurd (cc i);
      idle = λ b i. absurd (cc i);
      covered = λ j k f. ground (arith, new-IsConsistent.agree j k);
    }

-- A bit that is set over an empty queue hides every lower priority: the pick returns none and
-- changes nothing, so the next pick does the same.
pub pick_next-stale :
    (s : BitmapScheduler) (p : ℕ)
    → trailing_zeros 32 s.priority_bitmap ≡ p
    → s.priority_bitmap ≢ 0
    → queue s p ≡ []
    → pick_next s ≡ (none, s)
unfolding pick_next pop_front
pick_next-stale s p e n q = ground (arith, e, n, q, ap (λ j. get_or s.queues j []) e)
