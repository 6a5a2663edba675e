-- ===== src/Ipc/SharedMemory/Accounts.antt =====
-- The accounts of the pool over any calls.
use omniagent_os.Base.{
  ℕ, suc, ◌+◌, ◌*◌, ◌%◌, ◌^◌, ◌≤◌, ◌<◌, ◌≡◌, refl, Option, none, some, List, [], ◌∷◌, length, arith,
  Bool-cases, inl, inr, leb, ◌==◌,
}
use omniagent_os.Base.Each.{Each, Each-insert, Each-remove, Each-update}
use omniagent_os.Base.Map.{
  IsOrdered, insert, update, remove, insert-IsOrdered, remove-IsOrdered, update-IsOrdered,
  length-insert_new, length-remove, length-update,
}
use omniagent_os.Base.Map
use omniagent_os.Base.Totals.{total, total-insert_new, total-remove, total-update}
use omniagent_os.Ipc.SharedMemory.{
  SharedMemoryPool, SharedMemoryRegion, new, region, allocate, released, deallocate, resized,
  resize, transferred, transfer,
}

pub data PoolCall : Type 0 where
  allocates : ℕ → ℕ → PoolCall
  deallocates : ℕ → PoolCall
  resizes : ℕ → ℕ → PoolCall
  transfers : ℕ → ℕ → PoolCall

unfoldable pub call : SharedMemoryPool → PoolCall → SharedMemoryPool
call p (allocates size owner) = (allocate p size owner).1
call p (deallocates id) = (deallocate p id).1
call p (resizes id size) = (resize p id size).1
call p (transfers id owner) = (transfer p id owner).1

unfoldable pub pool_calls : SharedMemoryPool → List PoolCall → SharedMemoryPool
pool_calls p [] = p
pool_calls p (c ∷ cs) = pool_calls (call p c) cs

abbrev pub size_of : SharedMemoryRegion → ℕ
size_of r = r.size

-- An id that has been handed out, and the region under it.
abbrev pub IsEntry : ℕ → ℕ → SharedMemoryRegion → Type 0
IsEntry next id r = (id < next) × (r.id ≡ id) × (r.base_addr ≡ (0x10000000 + id * 0x1000) % 2 ^ 64)

pub record IsSound (max : ℕ) (p : SharedMemoryPool) : Type 0 where
  pub ordered : IsOrdered p.regions
  pub entries : Each (IsEntry p.next_id) p.regions
  pub used : p.used_size ≡ total size_of p.regions % 2 ^ 64
  pub bounded : length p.regions ≤ max
  pub limit : p.max_regions ≡ max

pub unused_id :
    (max : ℕ) (p : SharedMemoryPool) → IsSound max p → Map.get p.next_id p.regions ≡ none
unused_id max p s = free (Map.get p.next_id p.regions) refl
  where
    free : (o : Option SharedMemoryRegion) → Map.get p.next_id p.regions ≡ o → o ≡ none
    free none e = refl
    free (some r) e = absurd (omega (arith, (s.entries p.next_id r e).0))

pub allocate-IsSound :
    (max : ℕ) (p : SharedMemoryPool) (size owner : ℕ)
    → p.next_id + 1 < 2 ^ 64
    → IsSound max p
    → IsSound max (allocate p size owner).1
unfolding allocate region
allocate-IsSound max p size owner h s = elim (Bool-cases (size == 0)) [
  | inl z ↦ simp z s
  | inr n ↦ simp n (elim (Bool-cases (leb p.max_regions (length p.regions))) [
    | inl f ↦ simp f s
    | inr g ↦ simp g (record {
      ordered = insert-IsOrdered p.next_id r p.regions s.ordered;
      entries =
          Each-insert (IsEntry ((p.next_id + 1) % 2 ^ 64)) p.next_id r p.regions
            (λ id c e. let (b, same, base) = s.entries id c e in (omega arith, same, base))
            (omega arith, refl, refl);
      used = sized;
      bounded =
          ground (arith, length-insert_new p.next_id r p.regions (unused_id max p s), s.limit);
      limit = s.limit;
    })
  ])
]
  where
    r : SharedMemoryRegion
    r = region p.next_id size owner

    sized : (p.used_size + size) % 2 ^ 64 ≡ total size_of (insert p.next_id r p.regions) % 2 ^ 64
    sized =
        omega (arith, total-insert_new size_of p.next_id r p.regions (unused_id max p s), s.used)

released-IsSound :
    (max : ℕ) (p : SharedMemoryPool) (id : ℕ) (o : Option SharedMemoryRegion)
    → Map.get id p.regions ≡ o
    → IsSound max p
    → IsSound max (released p id o).1
released-IsSound max p id none e s = s
released-IsSound max p id (some r) e s = record {
  ordered = remove-IsOrdered id p.regions s.ordered;
  entries = Each-remove (IsEntry p.next_id) id p.regions s.entries;
  used = omega (arith, s.used, total-remove size_of id r p.regions s.ordered e);
  bounded = omega (arith, s.bounded, length-remove id r p.regions s.ordered e);
  limit = s.limit;
}

resized-IsSound :
    (max : ℕ) (p : SharedMemoryPool) (id size : ℕ) (o : Option SharedMemoryRegion)
    → Map.get id p.regions ≡ o
    → IsSound max p
    → IsSound max (resized p id size o).1
resized-IsSound max p id size none e s = s
resized-IsSound max p id size (some r) e s = record {
  ordered = update-IsOrdered id f p.regions s.ordered;
  entries = Each-update (IsEntry p.next_id) id f p.regions s.entries (λ v g. s.entries id v g);
  used = omega (arith, s.used, total-update size_of id f r p.regions s.ordered e);
  bounded = omega (arith, s.bounded, length-update id f p.regions);
  limit = s.limit;
}
  where
    f : SharedMemoryRegion → SharedMemoryRegion
    f x = record x { size = size }

transferred-IsSound :
    (max : ℕ) (p : SharedMemoryPool) (id owner : ℕ) (o : Option SharedMemoryRegion)
    → Map.get id p.regions ≡ o
    → IsSound max p
    → IsSound max (transferred p id owner o).1
transferred-IsSound max p id owner none e s = s
transferred-IsSound max p id owner (some r) e s = record {
  ordered = update-IsOrdered id f p.regions s.ordered;
  entries = Each-update (IsEntry p.next_id) id f p.regions s.entries (λ v g. s.entries id v g);
  used = omega (arith, s.used, total-update size_of id f r p.regions s.ordered e);
  bounded = omega (arith, s.bounded, length-update id f p.regions);
  limit = s.limit;
}
  where
    f : SharedMemoryRegion → SharedMemoryRegion
    f x = record x { owner = owner }

-- Sound, and far enough from the end of the ids for some more calls.
abbrev IsGood : ℕ → ℕ → SharedMemoryPool → Type 0
IsGood max n p = IsSound max p × (p.next_id + n < 2 ^ 64)

released-next :
    (p : SharedMemoryPool) (id : ℕ) (o : Option SharedMemoryRegion)
    → (released p id o).1.next_id ≡ p.next_id
released-next p id none = refl
released-next p id (some r) = refl

resized-next :
    (p : SharedMemoryPool) (id size : ℕ) (o : Option SharedMemoryRegion)
    → (resized p id size o).1.next_id ≡ p.next_id
resized-next p id size none = refl
resized-next p id size (some r) = refl

transferred-next :
    (p : SharedMemoryPool) (id owner : ℕ) (o : Option SharedMemoryRegion)
    → (transferred p id owner o).1.next_id ≡ p.next_id
transferred-next p id owner none = refl
transferred-next p id owner (some r) = refl

resize-IsGood :
    (max n : ℕ) (p : SharedMemoryPool) (id size : ℕ)
    → IsGood max n p
    → IsGood max n (resize p id size).1
unfolding resize
resize-IsGood max n p id size (s, b) = elim (Bool-cases (size == 0)) [
  | inl z ↦ simp z (s, b)
  | inr m ↦ simp m (
    resized-IsSound max p id size (Map.get id p.regions) refl s,
    omega (arith, b, resized-next p id size (Map.get id p.regions)),
  )
]

call-IsGood :
    (max n : ℕ) (p : SharedMemoryPool) (c : PoolCall)
    → IsGood max (suc n) p
    → IsGood max n (call p c)
unfolding call allocate deallocate resize transfer
call-IsGood max n p (allocates size owner) (s, b) =
    (allocate-IsSound max p size owner (omega arith) s, ground arith)
call-IsGood max n p (deallocates id) (s, b) = (
  released-IsSound max p id (Map.get id p.regions) refl s,
  omega (arith, released-next p id (Map.get id p.regions)),
)
call-IsGood max n p (resizes id size) (s, b) = resize-IsGood max n p id size (s, omega arith)
call-IsGood max n p (transfers id owner) (s, b) = (
  transferred-IsSound max p id owner (Map.get id p.regions) refl s,
  omega (arith, transferred-next p id owner (Map.get id p.regions)),
)

calls_from :
    (max : ℕ) (p : SharedMemoryPool) (cs : List PoolCall)
    → IsSound max p
    → p.next_id + length cs < 2 ^ 64
    → IsSound max (pool_calls p cs)
unfolding pool_calls
calls_from max p [] s b = s
calls_from max p (c ∷ cs) s b =
    let (t, d) = call-IsGood max (length cs) p c (s, b) in calls_from max (call p c) cs t d

-- After fewer than 2 ^ 63 calls on a new pool, `used_size` is the sum of the sizes of the regions
-- modulo 2 ^ 64, there are at most `max_regions` of them, and each is under its own id, which has
-- been handed out, at the base address of that id.
pub pool_calls-IsSound :
    (max : ℕ) (cs : List PoolCall) → length cs < 2 ^ 63 → IsSound max (pool_calls (new max) cs)
unfolding new Map.get
pool_calls-IsSound max cs b =
    calls_from max (new max) cs
      (record {
        ordered = tt;
        entries = λ k v e. absurd (cc e);
        used = refl;
        bounded = omega arith;
        limit = refl;
      })
      (omega arith)
