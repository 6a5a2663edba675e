-- ===== src/Memory/FrameAllocator/Counts.antt =====
-- `allocated_count` and `free_count` against the set of allocated frames.
use omniagent_os.Base.{
  ℕ, suc, ◌+◌, ◌-◌, ◌*◌, ◌/◌, ◌%◌, ◌<◌, ◌≡◌, sym, ◌∙◌, ap, subst, true, some, List, [], ◌∷◌, arith,
  length,
}
use omniagent_os.Base.Bits.{is_bit_set}
use omniagent_os.Base.Tally.{
  tally, tally-add, tally_same, tally-none, tally-le, tally-flip, tally-zero,
}
use omniagent_os.Base.Bits.Counts.{count_ones-tally}
use omniagent_os.Memory.FrameAllocator.{
  BitmapFrameAllocator, PhysFrame, is_taken, ones, allocate_frame, deallocate_frame, is_allocated,
  allocated_count, free_count,
}
use omniagent_os.Memory.FrameAllocator.Frames.{
  IsValid, Allocates, allocate_frame-Allocates, deallocate_frame_lem,
}

first_word : (w : ℕ) (ws : List ℕ) (i : ℕ) → i < 64 → is_taken (w ∷ ws) i ≡ is_bit_set w i
unfolding is_taken
first_word w ws i h =
    let q : i / 64 ≡ 0 = omega arith in let r : i % 64 ≡ i = omega arith in rw (q, r)

later_word : (w : ℕ) (ws : List ℕ) (i : ℕ) → is_taken (w ∷ ws) (64 + i) ≡ is_taken ws i
unfolding is_taken
later_word w ws i =
    let q : (64 + i) / 64 ≡ suc (i / 64) = omega arith in
    let r : (64 + i) % 64 ≡ i % 64 = omega arith in rw (q, r)

-- The ones of all words are the marks of all frames that the bitmap has a bit for.
ones-tally : (ws : List ℕ) → ones ws ≡ tally (is_taken ws) (64 * length ws)
unfolding ones
ones-tally [] = sym (tally-zero (is_taken []))
ones-tally (w ∷ ws) =
    let size : 64 * suc (length ws) ≡ 64 + 64 * length ws = omega arith in
    rw size (
      ground (
        arith,
        tally-add (is_taken (w ∷ ws)) 64 (64 * length ws),
        tally_same (is_taken (w ∷ ws)) (is_bit_set w) 64 (first_word w ws),
        tally_same (λ i. is_taken (w ∷ ws) (64 + i)) (is_taken ws) (64 * length ws)
            (λ i _. later_word w ws i),
        count_ones-tally 64 w,
        ones-tally ws,
      ))

-- How many frames are allocated.
pub population : BitmapFrameAllocator → ℕ
population a = tally (λ i. is_allocated a (record { number = i })) a.frame_count

-- The counter that sums the ones of the bitmap counts the allocated frames, and what is left is
-- free.
pub allocated_count-population :
    (a : BitmapFrameAllocator)
    → IsValid a
    → (allocated_count a ≡ population a) × (free_count a + population a ≡ a.frame_count)
unfolding allocated_count free_count population is_allocated
allocated_count-population a v =
    let below : (i : ℕ)
        → i < a.frame_count
        → is_taken a.bitmap i ≡ is_allocated a (record { number = i }) =
      λ i h. ground arith in
    let size : 64 * length a.bitmap ≡ a.frame_count + (64 * length a.bitmap - a.frame_count) =
      omega arith in
    ground (
      arith,
      ones-tally a.bitmap,
      ap (tally (is_taken a.bitmap)) size,
      tally-add (is_taken a.bitmap) a.frame_count (64 * length a.bitmap - a.frame_count),
      tally-none (λ i. is_taken a.bitmap (a.frame_count + i)) (64 * length a.bitmap - a.frame_count)
          (λ i _. v.clean (a.frame_count + i) (omega arith)),
      tally_same (is_taken a.bitmap) (λ i. is_allocated a (record { number = i })) a.frame_count
          below,
      tally-le (λ i. is_allocated a (record { number = i })) a.frame_count,
    )

-- An allocation that succeeds takes one frame from the free ones.
pub free_count-allocate_frame :
    (a b : BitmapFrameAllocator) (f : PhysFrame)
    → IsValid a
    → allocate_frame a ≡ (some f, b)
    → free_count a ≡ free_count b + 1
unfolding population
free_count-allocate_frame a b f v e =
    let (w, h, same, free, others) = subst (Allocates a) e (allocate_frame-Allocates a v) in
    ground (
      arith,
      allocated_count-population a v,
      allocated_count-population b w,
      tally-flip (λ i. is_allocated a (record { number = i }))
          (λ i. is_allocated b (record { number = i })) a.frame_count f.number h free
          (λ i. others (record { number = i })),
    )

frame_count-deallocate_frame :
    (a : BitmapFrameAllocator) (f : PhysFrame) → (deallocate_frame a f).frame_count ≡ a.frame_count
unfolding deallocate_frame
frame_count-deallocate_frame a f = ground arith

is_allocated-lt :
    (a : BitmapFrameAllocator) (f : PhysFrame) → is_allocated a f ≡ true → f.number < a.frame_count
unfolding is_allocated
is_allocated-lt a f e = ground arith

-- Freeing an allocated frame gives one frame back.
pub free_count-deallocate_frame :
    (a : BitmapFrameAllocator) (f : PhysFrame)
    → IsValid a
    → is_allocated a f ≡ true
    → free_count (deallocate_frame a f) ≡ free_count a + 1
unfolding population
free_count-deallocate_frame a f v e =
    let (w, cleared) = deallocate_frame_lem a f v in
    ground (
      arith,
      allocated_count-population a v,
      allocated_count-population (deallocate_frame a f) w,
      frame_count-deallocate_frame a f,
      is_allocated-lt a f e,
      cleared f,
      tally-flip (λ i. is_allocated (deallocate_frame a f) (record { number = i }))
          (λ i. is_allocated a (record { number = i })) a.frame_count f.number
          (is_allocated-lt a f e) (cleared f ∙ ground arith)
          (λ i. ground (arith, e, cleared (record { number = i }))),
    )
