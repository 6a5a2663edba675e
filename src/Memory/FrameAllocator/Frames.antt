-- ===== src/Memory/FrameAllocator/Frames.antt =====
-- The allocator as a set of allocated frames: what each method does to the frame it is about, and
-- that it leaves every other frame alone.
use omniagent_os.Base.{
  ℕ, ◌-◌, ◌*◌, ◌/◌, ◌%◌, ◌≤◌, ◌<◌, ◌≡◌, refl, true, false, Option, none, some, List, arith, ◌==◌,
  if◌then◌else◌, length, map, length-map, get_or-map,
}
use omniagent_os.Base.Bits.{is_bit_set-zero}
use omniagent_os.Memory.FrameAllocator.{
  BitmapFrameAllocator, PhysFrame, found, outside, exhausted, Outcome, scan, is_taken, take, new,
  wrap_around, from_hint, allocate_frame, deallocate_frame, is_allocated,
}
use omniagent_os.Memory.FrameAllocator.Scan.{
  scan-found, scan-exhausted, scan-ne-outside, is_taken-mark, is_taken-unmark, length-mark,
  length-unmark,
}

-- The bitmap has a bit for every frame and no other bit set, and the hint is a frame or just past
-- the last one.
pub record IsValid (a : BitmapFrameAllocator) : Type 0 where
  pub covered : a.frame_count ≤ 64 * length a.bitmap
  pub hint : a.next_free ≤ a.frame_count
  pub clean : (i : ℕ) → a.frame_count ≤ i → is_taken a.bitmap i ≡ false

is_taken-new : (bitmap : List ℕ) (i : ℕ) → is_taken (map (λ _. 0) bitmap) i ≡ false
unfolding is_taken
is_taken-new bitmap i =
    ground (arith, get_or-map {B = ℕ} (λ _. 0) bitmap (i / 64) 0, is_bit_set-zero (i % 64))

pub new-IsValid : (bitmap : List ℕ) (n : ℕ) → n ≤ 64 * length bitmap → IsValid (new bitmap n)
unfolding new
new-IsValid bitmap n h = record {
  covered = ground (arith, length-map {B = ℕ} (λ _. 0) bitmap);
  hint = omega arith;
  clean = λ i _. is_taken-new bitmap i;
}

-- What an allocation does, by its result.
abbrev pub Allocates : BitmapFrameAllocator → Option PhysFrame × BitmapFrameAllocator → Type 0
Allocates a (none, b) =
    (b ≡ a) × ((f : PhysFrame) → f.number < a.frame_count → is_allocated a f ≡ true)
Allocates a (some f, b) =
    IsValid b
    × (f.number < a.frame_count)
    × (b.frame_count ≡ a.frame_count)
    × (is_allocated a f ≡ false)
    × ((g : PhysFrame)
        → is_allocated b g ≡ (if g.number == f.number then true else is_allocated a g))

is_allocated-in :
    (a : BitmapFrameAllocator) (f : PhysFrame)
    → f.number < a.frame_count
    → f.number / 64 < length a.bitmap
    → is_allocated a f ≡ is_taken a.bitmap f.number
unfolding is_allocated
is_allocated-in a f h k = ground arith

take-Allocates :
    (a : BitmapFrameAllocator) (i : ℕ)
    → IsValid a
    → i < a.frame_count
    → is_taken a.bitmap i ≡ false
    → Allocates a (take a i)
unfolding take is_allocated
take-Allocates a i v h f = (
  record {
    covered = ground (arith, length-mark a.bitmap i);
    hint = omega arith;
    clean = λ k l. ground (arith, is_taken-mark a.bitmap i k, v.clean k l);
  },
  h,
  refl,
  ground arith,
  λ g. ground (arith, length-mark a.bitmap i, is_taken-mark a.bitmap i g.number),
)

exhausted-Allocates :
    (a : BitmapFrameAllocator)
    → scan a.bitmap (a.frame_count - a.next_free) a.next_free ≡ exhausted
    → scan a.bitmap a.next_free 0 ≡ exhausted
    → Allocates a (none, a)
unfolding is_allocated
exhausted-Allocates a high low = (
  refl,
  λ f h. ground (
    arith,
    scan-exhausted a.bitmap (a.frame_count - a.next_free) a.next_free f.number high,
    scan-exhausted a.bitmap a.next_free 0 f.number low,
  ),
)

wrap_around-Allocates :
    (a : BitmapFrameAllocator) (o : Outcome)
    → IsValid a
    → scan a.bitmap (a.frame_count - a.next_free) a.next_free ≡ exhausted
    → scan a.bitmap a.next_free 0 ≡ o
    → Allocates a (wrap_around a o)
unfolding wrap_around
wrap_around-Allocates a (found i) v high e =
    let (_, below, free, _) = scan-found a.bitmap a.next_free 0 i e in
    take-Allocates a i v (omega arith) free
wrap_around-Allocates a outside v high e =
    absurd (scan-ne-outside a.bitmap a.next_free 0 (omega arith) e)
wrap_around-Allocates a exhausted v high e = exhausted-Allocates a high e

from_hint-Allocates :
    (a : BitmapFrameAllocator) (o : Outcome)
    → IsValid a
    → scan a.bitmap (a.frame_count - a.next_free) a.next_free ≡ o
    → Allocates a (from_hint a o)
unfolding from_hint
from_hint-Allocates a (found i) v e =
    let (_, below, free, _) = scan-found a.bitmap (a.frame_count - a.next_free) a.next_free i e in
    take-Allocates a i v (omega arith) free
from_hint-Allocates a outside v e =
    absurd (scan-ne-outside a.bitmap (a.frame_count - a.next_free) a.next_free (omega arith) e)
from_hint-Allocates a exhausted v e = wrap_around-Allocates a _ v e refl

-- An allocation returns a frame of the memory that was free, marks it and no other, and keeps the
-- allocator well formed; or it returns none, changes nothing, and every frame was allocated.
pub allocate_frame-Allocates :
    (a : BitmapFrameAllocator) → IsValid a → Allocates a (allocate_frame a)
unfolding allocate_frame
allocate_frame-Allocates a v = from_hint-Allocates a _ v refl

-- Freeing a frame clears it and no other, whatever frame is named, and keeps the allocator well
-- formed.
pub deallocate_frame_lem :
    (a : BitmapFrameAllocator) (f : PhysFrame)
    → IsValid a
    → IsValid (deallocate_frame a f)
      × ((g : PhysFrame)
          → is_allocated (deallocate_frame a f) g
            ≡ (if g.number == f.number then false else is_allocated a g))
unfolding deallocate_frame is_allocated
deallocate_frame_lem a f v = (
  record {
    covered = ground (arith, length-unmark a.bitmap f.number);
    hint = ground arith;
    clean = λ k l. ground (arith, is_taken-unmark a.bitmap f.number k, v.clean k);
  },
  λ g. ground (arith, length-unmark a.bitmap f.number, is_taken-unmark a.bitmap f.number g.number),
)

-- A new allocator has no frame allocated, whatever the words of the bitmap were.
pub is_allocated-new :
    (bitmap : List ℕ) (n : ℕ) (f : PhysFrame) → is_allocated (new bitmap n) f ≡ false
unfolding new is_allocated
is_allocated-new bitmap n f = ground (arith, is_taken-new bitmap f.number)
