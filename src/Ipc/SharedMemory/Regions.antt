-- ===== src/Ipc/SharedMemory/Regions.antt =====
-- Which regions a call of the pool touches, and where they lie.
use omniagent_os.Base.{
  ℕ, ◌+◌, ◌*◌, ◌%◌, ◌^◌, ◌<◌, ◌≡◌, ◌≢◌, refl, ◌∙◌, subst, false, Option, none, some, length, arith,
  Bool-cases, inl, inr, leb, ◌==◌,
}
use omniagent_os.Base.Map.{
  insert, update, remove, get-insert, get-remove, get-update, length-insert_new,
}
use omniagent_os.Base.Map
use omniagent_os.Ipc.SharedMemory.{
  SharedMemoryPool, SharedMemoryRegion, get, region, allocate, released, deallocate, resized,
  resize, transferred, transfer, fetch_sub,
}
use omniagent_os.Ipc.SharedMemory.Accounts.{
  PoolCall, allocates, deallocates, resizes, transfers, call, IsSound, unused_id, allocate-IsSound,
}

-- The id that a call is about: the next one to be handed out, for an allocation.
abbrev pub target : SharedMemoryPool → PoolCall → ℕ
target p (allocates size owner) = p.next_id
target p (deallocates id) = id
target p (resizes id size) = id
target p (transfers id owner) = id

released-other :
    (p : SharedMemoryPool) (id j : ℕ) (o : Option SharedMemoryRegion)
    → j ≢ id
    → Map.get j (released p id o).1.regions ≡ Map.get j p.regions
released-other p id j none n = refl
released-other p id j (some r) n = ground (arith, get-remove id j p.regions)

resized-other :
    (p : SharedMemoryPool) (id size j : ℕ) (o : Option SharedMemoryRegion)
    → j ≢ id
    → Map.get j (resized p id size o).1.regions ≡ Map.get j p.regions
resized-other p id size j none n = refl
resized-other p id size j (some r) n =
    ground (arith, get-update id j (λ (x : SharedMemoryRegion). record x { size = size }) p.regions)

transferred-other :
    (p : SharedMemoryPool) (id owner j : ℕ) (o : Option SharedMemoryRegion)
    → j ≢ id
    → Map.get j (transferred p id owner o).1.regions ≡ Map.get j p.regions
transferred-other p id owner j none n = refl
transferred-other p id owner j (some r) n =
    ground
      (arith, get-update id j (λ (x : SharedMemoryRegion). record x { owner = owner }) p.regions)

get-allocate :
    (p : SharedMemoryPool) (size owner j : ℕ)
    → j ≢ p.next_id
    → get (allocate p size owner).1 j ≡ get p j
unfolding get allocate
get-allocate p size owner j n = elim (Bool-cases (size == 0)) [
  | inl z ↦ simp z refl
  | inr m ↦ simp m (elim (Bool-cases (leb p.max_regions (length p.regions))) [
    | inl f ↦ simp f refl
    | inr g ↦
        simp g (ground (arith, get-insert p.next_id j (region p.next_id size owner) p.regions))
  ])
]

get-resize : (p : SharedMemoryPool) (id size j : ℕ) → j ≢ id → get (resize p id size).1 j ≡ get p j
unfolding get resize
get-resize p id size j n = elim (Bool-cases (size == 0)) [
  | inl z ↦ simp z refl
  | inr m ↦ simp m (resized-other p id size j (Map.get id p.regions) n)
]

-- A call changes no region but the one that it is about.
pub get-call :
    (p : SharedMemoryPool) (c : PoolCall) (j : ℕ) → j ≢ target p c → get (call p c) j ≡ get p j
unfolding call get allocate deallocate resize transfer
get-call p (allocates size owner) j n = get-allocate p size owner j n
get-call p (deallocates id) j n = released-other p id j (Map.get id p.regions) n
get-call p (resizes id size) j n = get-resize p id size j n
get-call p (transfers id owner) j n = transferred-other p id owner j (Map.get id p.regions) n

given :
    (max : ℕ) (p : SharedMemoryPool) (size owner : ℕ)
    → IsSound max p
    → size ≢ 0
    → length p.regions < max
    → (get (allocate p size owner).1 p.next_id ≡ some (region p.next_id size owner))
      × ((allocate p size owner).1.next_id ≡ (p.next_id + 1) % 2 ^ 64)
      × (length (allocate p size owner).1.regions ≡ length p.regions + 1)
unfolding allocate get
given max p size owner s n h =
    let m : (size == 0) ≡ false = ground arith in
    let g : leb p.max_regions (length p.regions) ≡ false = ground (arith, s.limit) in
    simp m (
      simp g (
        ground (arith, get-insert p.next_id p.next_id (region p.next_id size owner) p.regions),
        refl,
        length-insert_new p.next_id (region p.next_id size owner) p.regions (unused_id max p s),
      ))

-- Of two regions allocated one after the other, the second lies 0x1000 above the first; if the
-- first is larger than that, the second begins inside it. (The pool is sound, has room for both
-- and their addresses do not wrap around.)
pub allocate-Overlap :
    (max : ℕ) (p : SharedMemoryPool) (size size' owner owner' : ℕ)
    → IsSound max p
    → length p.regions + 1 < max
    → 0x10000000 + (p.next_id + 1) * 0x1000 < 2 ^ 64
    → 0x1000 < size
    → size' ≢ 0
    → let q = (allocate (allocate p size owner).1 size' owner').1 in
      (a : SharedMemoryRegion) × (b : SharedMemoryRegion) × (get q p.next_id ≡ some a)
      × (get q (p.next_id + 1) ≡ some b)
      × (a.base_addr < b.base_addr)
      × (b.base_addr < a.base_addr + a.size)
unfolding region
allocate-Overlap max p size size' owner owner' s room small big n =
    let q = (allocate p size owner).1 in
    let (found, next, count) =
      given max p size owner s (λ e. absurd (omega (arith, e, big))) (omega arith) in
    let step : q.next_id ≡ p.next_id + 1 = omega (arith, next) in
    let t = allocate-IsSound max p size owner (omega arith) s in
    let (found', next', count') = given max q size' owner' t n (omega (arith, count)) in
    (
      region p.next_id size owner,
      region q.next_id size' owner',
      unfold call in
          get-call q (allocates size' owner') p.next_id (λ e. absurd (omega (arith, e, step)))
          ∙ found,
      subst (λ i. get (allocate q size' owner').1 i ≡ some (region q.next_id size' owner')) step
          found',
      omega (arith, step),
      omega (arith, step),
    )

-- A region that is resized and then released: `used_size` is what releasing it at once would have
-- left, but `total_size`, which counted the old size, is lowered by the new one.
pub resize-deallocate :
    (max : ℕ) (p : SharedMemoryPool) (id size : ℕ) (r : SharedMemoryRegion)
    → IsSound max p
    → get p id ≡ some r
    → size ≢ 0
    → let q = (deallocate (resize p id size).1 id).1 in
      (get q id ≡ none)
      × (q.used_size ≡ (deallocate p id).1.used_size)
      × (q.total_size ≡ fetch_sub p.total_size size)
unfolding get resize deallocate
resize-deallocate max p id size r s e n =
    let m : (size == 0) ≡ false = ground arith in
    let found : Map.get id (update id f p.regions) ≡ some (f r) =
      ground (arith, get-update id id f p.regions, e) in
    simp m (
      simp e (
        simp found
          (ground (arith, get-remove id id (update id f p.regions)), omega (arith, s.used), refl)))
  where
    f : SharedMemoryRegion → SharedMemoryRegion
    f x = record x { size = size }
