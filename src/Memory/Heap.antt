-- ===== src/Memory/Heap.antt =====
-- kernel/src/memory/heap.rs: the bump allocator behind the kernel's heap. Its statics are the
-- fields of one record; addresses are 64 bits wide and wrap around. A null pointer is none.
pub mod Blocks
pub mod Examples
use omniagent_os.Base.{
  ℕ, ◌+◌, ◌-◌, ◌%◌, ◌^◌, max, Bool, true, false, Option, none, some, ltb, if◌then◌else◌,
}

abbrev pub heap_align : ℕ
heap_align = 16

pub record Heap : Type 0 where
  pub initialized : Bool
  pub heap_start : ℕ
  pub heap_size : ℕ
  pub heap_used : ℕ
  pub next : ℕ

pub init_heap : Heap → ℕ → ℕ → Heap
init_heap h start_addr size = record {
  initialized = true;
  heap_start = start_addr;
  heap_size = size;
  heap_used = 0;
  next = 0;
}

-- `(address + align - 1) & !(align - 1)`, for the powers of two that a `Layout` has.
abbrev pub align_up : ℕ → ℕ → ℕ
align_up address align = let above = (address + align - 1) % 2 ^ 64 in above - above % align

-- The bump pointer moves before the bounds are tested.
abbrev pub bumped : Heap → ℕ → Heap
bumped h size = record h { next = (h.next + size) % 2 ^ 64 }

abbrev pub give : Heap → ℕ → ℕ → Option ℕ × Heap
give h size aligned =
    if ltb ((h.heap_start + h.heap_size) % 2 ^ 64) ((aligned + size) % 2 ^ 64)
    then (none, bumped h size)
    else (some aligned, record (bumped h size) { heap_used = (h.next + size) % 2 ^ 64 })

pub alloc : Heap → ℕ → ℕ → Option ℕ × Heap
alloc h size align =
    if h.initialized
    then give h size (align_up ((h.heap_start + h.next) % 2 ^ 64) (max align heap_align))
    else (none, h)

pub heap_stats : Heap → ℕ × ℕ
heap_stats h = (h.heap_size, h.heap_used)
