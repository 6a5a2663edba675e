-- ===== src/Memory/Heap/Examples.antt =====
-- A heap of 4096 bytes, and the theorems at it.
use omniagent_os.Base.{◌+◌, ◌≡◌, refl, true, none, some, arith, [], ◌∷◌}
use omniagent_os.Memory.Heap.{Heap, alloc}
use omniagent_os.Memory.Heap.Blocks.{alloc-Overlap, allocs, alloc-Exhausts}

abbrev heap : Heap
heap = record {
  initialized = true;
  heap_start = 0x100000;
  heap_size = 4096;
  heap_used = 0;
  next = 0;
}

alloc-Overlap_example :
    let (p, g) = alloc heap 8 8 in
    let (q, k) = alloc g 8 8 in
    let (r, l) = alloc k 8 8 in (q ≡ some (heap.heap_start + heap.next + 16)) × (r ≡ q)
alloc-Overlap_example =
    alloc-Overlap heap (record { ready = refl; bounded = omega arith; room = omega arith }) refl
      refl (omega arith)

alloc-Exhausts_example : allocs heap ((5000, 8) ∷ (8, 8) ∷ (64, 16) ∷ []) ≡ none ∷ none ∷ none ∷ []
alloc-Exhausts_example =
    alloc-Exhausts heap 5000 8 ((8, 8) ∷ (64, 16) ∷ [])
      (record { ready = refl; bounded = omega arith; room = omega arith }) (omega arith)
      (omega arith) (omega arith, (omega arith, tt))
