-- ===== src/Memory.antt =====
-- Physical memory (kernel/src/memory): the bitmap frame allocator and the kernel's heap.
pub mod FrameAllocator
pub mod Heap
