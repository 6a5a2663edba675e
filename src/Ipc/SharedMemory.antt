-- ===== src/Ipc/SharedMemory.antt =====
-- kernel/src/ipc/shared_memory.rs: the pool of shared memory regions and its accounts. The atomic
-- sizes and ids are 64 bits wide and wrap around.
pub mod Accounts
pub mod Regions
pub mod Examples
use omniagent_os.Base.{
  ℕ, ◌+◌, ◌-◌, ◌*◌, ◌%◌, ◌^◌, Bool, true, false, Option, none, some, List, [], ◌∷◌, length, leb,
  ◌==◌, if◌then◌else◌, Result, ok, err,
}
use omniagent_os.Base.Map.{Map, insert, remove, update}
use omniagent_os.Base.Map
use omniagent_os.Ipc.Failure.{IpcError, invalid_size, invalid_handle, out_of_memory}

pub record SharedMemoryRegion : Type 0 where
  pub id : ℕ
  pub base_addr : ℕ
  pub size : ℕ
  pub owner : ℕ
  pub ref_count : ℕ
  pub permissions : ℕ

pub record SharedMemoryPool : Type 0 where
  pub regions : Map SharedMemoryRegion
  pub total_size : ℕ
  pub used_size : ℕ
  pub next_id : ℕ
  pub max_regions : ℕ

pub new : ℕ → SharedMemoryPool
new max_regions = record {
  regions = [];
  total_size = 0;
  used_size = 0;
  next_id = 1;
  max_regions = max_regions;
}

-- `fetch_add` and `fetch_sub` on 64 bits.
abbrev pub fetch_add : ℕ → ℕ → ℕ
fetch_add a b = (a + b) % 2 ^ 64

abbrev pub fetch_sub : ℕ → ℕ → ℕ
fetch_sub a b = (a + (2 ^ 64 - b % 2 ^ 64)) % 2 ^ 64

pub region : ℕ → ℕ → ℕ → SharedMemoryRegion
region id size owner = record {
  id = id;
  base_addr = (0x10000000 + id * 0x1000) % 2 ^ 64;
  size = size;
  owner = owner;
  ref_count = 1;
  permissions = 0x06;
}

pub allocate : SharedMemoryPool → ℕ → ℕ → Result ℕ IpcError × SharedMemoryPool
allocate p size owner =
    if size == 0
    then (err (invalid_size size), p)
    else if leb p.max_regions (length p.regions)
    then (err out_of_memory, p)
    else (
      ok p.next_id,
      record p {
        regions = insert p.next_id (region p.next_id size owner) p.regions;
        used_size = fetch_add p.used_size size;
        total_size = fetch_add p.total_size size;
        next_id = fetch_add p.next_id 1;
      },
    )

abbrev pub released :
    SharedMemoryPool → ℕ → Option SharedMemoryRegion → Result (Unit {0}) IpcError × SharedMemoryPool
released p id none = (err (invalid_handle id), p)
released p id (some r) = (
  ok tt,
  record p {
    regions = remove id p.regions;
    used_size = fetch_sub p.used_size r.size;
    total_size = fetch_sub p.total_size r.size;
  },
)

pub deallocate : SharedMemoryPool → ℕ → Result (Unit {0}) IpcError × SharedMemoryPool
deallocate p id = released p id (Map.get id p.regions)

-- The clone of a region is equal to it.
pub get : SharedMemoryPool → ℕ → Option SharedMemoryRegion
get p id = Map.get id p.regions

abbrev pub resized :
    SharedMemoryPool
    → ℕ
    → ℕ
    → Option SharedMemoryRegion
    → Result (Unit {0}) IpcError × SharedMemoryPool
resized p id new_size none = (err (invalid_handle id), p)
resized p id new_size (some r) = (
  ok tt,
  record p {
    regions = update id (λ x. record x { size = new_size }) p.regions;
    used_size = fetch_add (fetch_sub p.used_size r.size) new_size;
  },
)

pub resize : SharedMemoryPool → ℕ → ℕ → Result (Unit {0}) IpcError × SharedMemoryPool
resize p id new_size =
    if new_size == 0
    then (err (invalid_size new_size), p)
    else resized p id new_size (Map.get id p.regions)

abbrev pub transferred :
    SharedMemoryPool
    → ℕ
    → ℕ
    → Option SharedMemoryRegion
    → Result (Unit {0}) IpcError × SharedMemoryPool
transferred p id new_owner none = (err (invalid_handle id), p)
transferred p id new_owner (some r) =
    (ok tt, record p { regions = update id (λ x. record x { owner = new_owner }) p.regions })

pub transfer : SharedMemoryPool → ℕ → ℕ → Result (Unit {0}) IpcError × SharedMemoryPool
transfer p id new_owner = transferred p id new_owner (Map.get id p.regions)

unfoldable region_count : SharedMemoryPool → ℕ
region_count p = length p.regions

unfoldable stats : SharedMemoryPool → ℕ × ℕ × ℕ
stats p = (p.total_size, p.used_size, region_count p)
