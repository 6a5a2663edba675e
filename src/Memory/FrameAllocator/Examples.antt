-- ===== src/Memory/FrameAllocator/Examples.antt =====
-- A memory of four frames: runs of the allocator, and the theorems at what they reach.
use omniagent_os.Base.{◌+◌, ◌≡◌, refl, true, false, some, [], ◌∷◌, arith}
use omniagent_os.Base.Bits.{is_bit_set, set_bit, clear_bit}
use omniagent_os.Memory.FrameAllocator.{
  BitmapFrameAllocator, PhysFrame, new, allocate_frame, deallocate_frame, is_allocated, free_count,
  scan, is_taken, mark, unmark,
}
use omniagent_os.Memory.FrameAllocator.Frames.{
  IsValid, Allocates, new-IsValid, allocate_frame-Allocates, is_allocated-new,
}
use omniagent_os.Memory.FrameAllocator.Counts.{free_count-deallocate_frame}

abbrev frame : PhysFrame
frame = record { number = 0 }

-- The words that the allocator is given hold garbage.
empty : BitmapFrameAllocator
empty = new (7 ∷ []) 4

abbrev one : BitmapFrameAllocator
one = (allocate_frame empty).1

empty-IsValid : IsValid empty
unfolding empty
empty-IsValid = new-IsValid (7 ∷ []) 4 (omega arith)

first_frame : allocate_frame empty ≡ (some frame, one)
unfolding empty allocate_frame new scan is_taken is_bit_set
first_frame = refl

one-IsValid : IsValid one
unfolding empty allocate_frame new scan is_taken is_bit_set
one-IsValid = (allocate_frame-Allocates empty empty-IsValid).0

frame_taken : is_allocated one frame ≡ true
unfolding empty allocate_frame new scan is_taken is_bit_set is_allocated mark set_bit
frame_taken = refl

-- The freed frame is the one that the next allocation returns.
reuse : (allocate_frame (deallocate_frame one frame)).0 ≡ some frame
unfolding empty allocate_frame new scan is_taken is_bit_set deallocate_frame mark unmark set_bit
    clear_bit
reuse = refl

allocate_frame-Allocates_example : Allocates one (allocate_frame one)
allocate_frame-Allocates_example = allocate_frame-Allocates one one-IsValid

is_allocated-new_example : is_allocated (new (7 ∷ []) 4) frame ≡ false
is_allocated-new_example = is_allocated-new (7 ∷ []) 4 frame

free_count-deallocate_frame_example : free_count (deallocate_frame one frame) ≡ free_count one + 1
free_count-deallocate_frame_example = free_count-deallocate_frame one frame one-IsValid frame_taken
