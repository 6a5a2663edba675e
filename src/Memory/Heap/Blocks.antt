-- ===== src/Memory/Heap/Blocks.antt =====
-- Where the blocks lie that the heap gives out.
use omniagent_os.Base.{
  ℕ, ◌+◌, ◌-◌, ◌%◌, ◌^◌, ◌≤◌, ◌<◌, ◌≡◌, refl, ap, ◌∙◌, sym, max, true, false, Option, none, some,
  arith, ltb, subst, dec_lt, if◌then◌else◌, List, [], ◌∷◌,
}
use omniagent_os.Base.All.{All}
use omniagent_os.Memory.Heap.{Heap, alloc, align_up, give}

-- An initialised heap whose addresses, a few requests beyond its bump pointer, do not wrap around.
pub record IsHeap (slack : ℕ) (h : Heap) : Type 0 where
  pub ready : h.initialized ≡ true
  pub bounded : h.heap_start + h.heap_size < 2 ^ 64
  pub room : h.heap_start + h.next + slack < 2 ^ 64

alloc-give :
    (h : Heap) (size align : ℕ)
    → h.initialized ≡ true
    → align ≤ 16
    → alloc h size align ≡ give h size (align_up ((h.heap_start + h.next) % 2 ^ 64) 16)
unfolding alloc
alloc-give h size align ready small =
    let sixteen : max align 16 ≡ 16 = omega (arith, small) in
    ap
      (λ b.
        if b
        then give h size (align_up ((h.heap_start + h.next) % 2 ^ 64) (max align 16))
        else (none, h))
      ready
    ∙ ap (λ a. give h size (align_up ((h.heap_start + h.next) % 2 ^ 64) a)) sixteen

abbrev moved : Heap → ℕ → Heap
moved h size = record h { next = h.next + size }

-- The only multiple of 16 in reach of the bump pointer, if the block ends inside the heap.
alloc-fits :
    (h : Heap) (size align p : ℕ)
    → IsHeap (size + 16) h
    → align ≤ 16
    → p % 16 ≡ 0
    → h.heap_start + h.next ≤ p
    → p < h.heap_start + h.next + 16
    → p + size ≤ h.heap_start + h.heap_size
    → alloc h size align ≡ (some p, record (moved h size) { heap_used = h.next + size })
alloc-fits h size align p v small a b c d =
    alloc-give h size align v.ready small ∙ ap (give h size) here ∙ simp fits (simp on refl)
  where
    here : align_up ((h.heap_start + h.next) % 2 ^ 64) 16 ≡ p
    here = omega (arith, v.room)

    fits : ltb ((h.heap_start + h.heap_size) % 2 ^ 64) ((p + size) % 2 ^ 64) ≡ false
    fits = ground (arith, v.bounded, d)

    on : (h.next + size) % 2 ^ 64 ≡ h.next + size
    on = omega (arith, v.room)

alloc-fails :
    (h : Heap) (size align p : ℕ)
    → IsHeap (size + 16) h
    → align ≤ 16
    → p % 16 ≡ 0
    → h.heap_start + h.next ≤ p
    → p < h.heap_start + h.next + 16
    → h.heap_start + h.heap_size < p + size
    → alloc h size align ≡ (none, moved h size)
alloc-fails h size align p v small a b c d =
    alloc-give h size align v.ready small ∙ ap (give h size) here ∙ simp full (simp on refl)
  where
    here : align_up ((h.heap_start + h.next) % 2 ^ 64) 16 ≡ p
    here = omega (arith, v.room)

    full : ltb ((h.heap_start + h.heap_size) % 2 ^ 64) ((p + size) % 2 ^ 64) ≡ true
    full = ground (arith, v.bounded, v.room, d)

    on : (h.next + size) % 2 ^ 64 ≡ h.next + size
    on = omega (arith, v.room)

-- What a request does: the block that it gives is aligned, lies inside the heap and above the
-- bump pointer as it was, less than 16 bytes away; or the heap has no such block. Either way the
-- pointer moves on by the size.
abbrev pub Gives : Heap → ℕ → Option ℕ × Heap → Type 0
Gives h size (none, g) = (g.next ≡ h.next + size) × (h.heap_size < h.next + size + 16)
Gives h size (some p, g) =
    (g.next ≡ h.next + size)
    × (p % 16 ≡ 0)
    × (h.heap_start + h.next ≤ p)
    × (p < h.heap_start + h.next + 16)
    × (p + size ≤ h.heap_start + h.heap_size)

-- A request of an alignment up to 16, on an initialised heap whose addresses do not wrap around:
-- it gives a block that is aligned to 16, at the bump pointer or less than 16 bytes above it, and
-- that ends inside the heap; or it fails, and less than 16 bytes more than the size were left.
-- Either way the bump pointer moves on by the size.
pub alloc-Gives :
    (h : Heap) (size align : ℕ)
    → IsHeap (size + 16) h
    → align ≤ 16
    → Gives h size (alloc h size align)
alloc-Gives h size align v small =
    let above = h.heap_start + h.next + 15 in
    let p = above - above % 16 in
    let at : p % 16 ≡ 0 = omega arith in
    let low : h.heap_start + h.next ≤ p = omega arith in
    let high : p < h.heap_start + h.next + 16 = omega arith in
    elim (dec_lt (h.heap_start + h.heap_size) (p + size)) [
      | yes y ↦
          subst (Gives h size) (sym (alloc-fails h size align p v small at low high y))
            (refl, omega (arith, y, high))
      | no n ↦
          let inside : p + size ≤ h.heap_start + h.heap_size = omega (arith, n) in
          subst (Gives h size) (sym (alloc-fits h size align p v small at low high inside))
            (refl, at, low, high, inside)
    ]

-- Of three requests for 8 bytes one after the other on a heap that is aligned to 16 and has room,
-- the second and the third get the same block.
pub alloc-Overlap :
    (h : Heap)
    → IsHeap 64 h
    → h.heap_start % 16 ≡ 0
    → h.next % 16 ≡ 0
    → h.next + 24 ≤ h.heap_size
    → let (p, g) = alloc h 8 8 in
      let (q, k) = alloc g 8 8 in
      let (r, l) = alloc k 8 8 in (q ≡ some (h.heap_start + h.next + 16)) × (r ≡ q)
alloc-Overlap h v a b c =
    let base = h.heap_start + h.next in
    let g = record (moved h 8) { heap_used = h.next + 8 } in
    let k = record (moved g 8) { heap_used = g.next + 8 } in
    let first : alloc h 8 8 ≡ (some base, g) =
      alloc-fits h 8 8 base
        (record { ready = v.ready; bounded = v.bounded; room = omega (arith, v.room) })
        (omega arith) (omega (arith, a, b)) (omega arith) (omega arith) (omega (arith, c)) in
    let second : alloc g 8 8 ≡ (some (base + 16), k) =
      alloc-fits g 8 8 (base + 16)
        (record { ready = v.ready; bounded = v.bounded; room = omega (arith, v.room) })
        (omega arith) (omega (arith, a, b)) (omega arith) (omega arith) (omega (arith, c)) in
    let third : (alloc k 8 8).0 ≡ some (base + 16) =
      ap (λ x. x.0)
        (alloc-fits k 8 8 (base + 16)
          (record { ready = v.ready; bounded = v.bounded; room = omega (arith, v.room) })
          (omega arith) (omega (arith, a, b)) (omega arith) (omega arith) (omega (arith, c))) in
    let of_second : ((alloc g 8 8).0 ≡ some (base + 16))
        × ((alloc (alloc g 8 8).1 8 8).0 ≡ (alloc g 8 8).0) =
      subst (λ (x : Option ℕ × Heap). (x.0 ≡ some (base + 16)) × ((alloc x.1 8 8).0 ≡ x.0))
        (sym second) (refl, third) in
    subst
      (λ (x : Option ℕ × Heap).
        ((alloc x.1 8 8).0 ≡ some (base + 16))
        × ((alloc (alloc x.1 8 8).1 8 8).0 ≡ (alloc x.1 8 8).0))
      (sym first) of_second

-- What a list of requests, of sizes and alignments, is given one after the other.
abbrev pub allocs : Heap → List (ℕ × ℕ) → List (Option ℕ)
allocs h [] = []
allocs h ((size, align) ∷ requests) = let (p, g) = alloc h size align in p ∷ allocs g requests

abbrev pub total : List (ℕ × ℕ) → ℕ
total [] = 0
total ((size, align) ∷ requests) = size + total requests

abbrev pub none_of : List (ℕ × ℕ) → List (Option ℕ)
none_of [] = []
none_of (r ∷ requests) = none ∷ none_of requests

IsHeap-less : (a b : ℕ) (h : Heap) → IsHeap a h → b ≤ a → IsHeap b h
IsHeap-less a b h v l = record {
  ready = v.ready;
  bounded = v.bounded;
  room = omega (arith, v.room, l);
}

alloc_too_large :
    (h : Heap) (size align : ℕ)
    → IsHeap (size + 16) h
    → align ≤ 16
    → h.heap_size < h.next + size
    → alloc h size align ≡ (none, moved h size)
alloc_too_large h size align v l m =
    let above = h.heap_start + h.next + 15 in
    alloc-fails h size align (above - above % 16) v l (omega arith) (omega arith) (omega arith)
      (omega (arith, m))

allocs-none :
    (h : Heap) (requests : List (ℕ × ℕ))
    → IsHeap (total requests + 16) h
    → All (λ r. r.1 ≤ 16) requests
    → h.heap_size < h.next
    → allocs h requests ≡ none_of requests
allocs-none h [] v a full = refl
allocs-none h ((size, align) ∷ requests) v a full =
    let fails =
      alloc_too_large h size align
        (IsHeap-less (size + total requests + 16) (size + 16) h v (omega arith)) a.0
        (omega (arith, full)) in
    let on : IsHeap (total requests + 16) (moved h size) = record {
      ready = v.ready;
      bounded = v.bounded;
      room = omega (arith, v.room);
    } in
    ap (λ x. x.0 ∷ allocs x.1 requests) fails
    ∙ ap (λ l. none ∷ l) (allocs-none (moved h size) requests on a.1 (omega (arith, full)))

-- After a request that is too large for what is left of the heap, all the requests that follow fail,
-- however many and even those that would have fitted before. Alignments are up to 16, and addresses
-- do not wrap around in the course of the requests.
pub alloc-Exhausts :
    (h : Heap) (size align : ℕ) (requests : List (ℕ × ℕ))
    → IsHeap (size + total requests + 16) h
    → h.heap_size < h.next + size
    → align ≤ 16
    → All (λ r. r.1 ≤ 16) requests
    → allocs h ((size, align) ∷ requests) ≡ none ∷ none_of requests
alloc-Exhausts h size align requests v big small a =
    let on : IsHeap (total requests + 16) (moved h size) = record {
      ready = v.ready;
      bounded = v.bounded;
      room = omega (arith, v.room);
    } in
    ap (λ x. x.0 ∷ allocs x.1 requests)
      (alloc_too_large h size align
        (IsHeap-less (size + total requests + 16) (size + 16) h v (omega arith)) small big)
    ∙ ap (λ l. none ∷ l) (allocs-none (moved h size) requests on a (omega (arith, big)))
