-- ===== src/Memory/FrameAllocator.antt =====
-- kernel/src/memory/frame_allocator.rs: one bit for each physical frame of 4 KiB, and a hint where
-- the next search begins. A method with `&mut self` returns the new allocator.
pub mod Scan
pub mod Frames
pub mod Counts
mod Examples
use omniagent_os.Base.{
  ℕ, zero, suc, ◌+◌, ◌-◌, ◌/◌, ◌%◌, min, Bool, false, Option, none, some, List, [], ◌∷◌, ltb, leb,
  if◌then◌else◌, length, get_or, set, map,
}
use omniagent_os.Base.Bits.{is_bit_set, set_bit, clear_bit, count_ones}

pub record PhysFrame : Type 0 where
  pub number : ℕ

pub record BitmapFrameAllocator : Type 0 where
  pub bitmap : List ℕ  -- &mut [u64]
  pub frame_count : ℕ
  pub next_free : ℕ

abbrev pub bits_per_u64 : ℕ
bits_per_u64 = 64

-- Clears every word of the bitmap that it is given.
pub new : List ℕ → ℕ → BitmapFrameAllocator
new bitmap frame_count = record {
  bitmap = map (λ _. 0) bitmap;
  frame_count = frame_count;
  next_free = 0;
}

-- How a search ends: at a clear bit, past the end of the bitmap, or with no frame left to try.
pub data Outcome : Type 0 where
  found : ℕ → Outcome
  outside : Outcome
  exhausted : Outcome

-- `self.bitmap[i / 64] & (1 << (i % 64)) != 0`
pub is_taken : List ℕ → ℕ → Bool
is_taken bitmap i = is_bit_set (get_or bitmap (i / bits_per_u64) 0) (i % bits_per_u64)

-- `for i in i..i + rounds`, up to its first `return`.
pub scan : List ℕ → ℕ → ℕ → Outcome
scan bitmap zero i = exhausted
scan bitmap (suc rounds) i =
    let rest = scan bitmap rounds (i + 1) in
    if leb (length bitmap) (i / bits_per_u64)
    then outside
    else if is_taken bitmap i
    then rest
    else found i

-- `self.bitmap[i / 64] |= 1 << (i % 64)`
pub mark : List ℕ → ℕ → List ℕ
mark bitmap i =
    set bitmap (i / bits_per_u64) (set_bit (get_or bitmap (i / bits_per_u64) 0) (i % bits_per_u64))

-- `self.bitmap[i / 64] &= !(1 << (i % 64))`
pub unmark : List ℕ → ℕ → List ℕ
unmark bitmap i =
    set bitmap (i / bits_per_u64)
      (clear_bit 64 (get_or bitmap (i / bits_per_u64) 0) (i % bits_per_u64))

-- The body of both loops at a clear bit.
pub take : BitmapFrameAllocator → ℕ → Option PhysFrame × BitmapFrameAllocator
unfolding mark
take a i = (some (record { number = i }), record a { bitmap = mark a.bitmap i; next_free = i + 1 })

-- The second loop, from frame 0 to the hint.
wrap_around : BitmapFrameAllocator → Outcome → Option PhysFrame × BitmapFrameAllocator
unfolding take
wrap_around a (found i) = take a i
wrap_around a outside = (none, a)
wrap_around a exhausted = (none, a)

from_hint : BitmapFrameAllocator → Outcome → Option PhysFrame × BitmapFrameAllocator
unfolding take wrap_around
from_hint a (found i) = take a i
from_hint a outside = (none, a)
from_hint a exhausted = wrap_around a (scan a.bitmap a.next_free 0)

pub allocate_frame : BitmapFrameAllocator → Option PhysFrame × BitmapFrameAllocator
unfolding from_hint
allocate_frame a = from_hint a (scan a.bitmap (a.frame_count - a.next_free) a.next_free)

pub deallocate_frame : BitmapFrameAllocator → PhysFrame → BitmapFrameAllocator
deallocate_frame a frame =
    let i = frame.number in
    if leb a.frame_count i
    then a
    else if ltb (i / bits_per_u64) (length a.bitmap)
    then record a {
      bitmap = unmark a.bitmap i;
      next_free = if ltb i a.next_free then i else a.next_free;
    }
    else a

pub is_allocated : BitmapFrameAllocator → PhysFrame → Bool
is_allocated a frame =
    let i = frame.number in
    if leb a.frame_count i
    then false
    else if leb (length a.bitmap) (i / bits_per_u64)
    then false
    else is_taken a.bitmap i

pub usable_frame_count : BitmapFrameAllocator → ℕ
usable_frame_count a = a.frame_count

pub ones : List ℕ → ℕ
ones [] = 0
ones (w ∷ ws) = count_ones 64 w + ones ws

pub allocated_count : BitmapFrameAllocator → ℕ
allocated_count a = min (ones a.bitmap) a.frame_count

pub free_count : BitmapFrameAllocator → ℕ
free_count a = a.frame_count - allocated_count a
