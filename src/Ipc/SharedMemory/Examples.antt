-- ===== src/Ipc/SharedMemory/Examples.antt =====
-- A pool of four regions, and the theorems at what it goes through.
use omniagent_os.Base.{List, [], ◌∷◌, arith}
use omniagent_os.Ipc.SharedMemory.{SharedMemoryPool, new}
use omniagent_os.Ipc.SharedMemory.Accounts.{
  PoolCall, allocates, deallocates, resizes, transfers, pool_calls, IsSound, pool_calls-IsSound,
}

abbrev script : List PoolCall
script = allocates 0x2000 1 ∷ allocates 64 2 ∷ resizes 1 0x3000 ∷ transfers 2 7 ∷ deallocates 2 ∷ []

pool_calls-IsSound_example : IsSound 4 (pool_calls (new 4) script)
pool_calls-IsSound_example = pool_calls-IsSound 4 script (omega arith)

new-IsSound : IsSound 4 (new 4)
unfolding pool_calls
new-IsSound = pool_calls-IsSound 4 [] (omega arith)

abbrev one : SharedMemoryPool
one = pool_calls (new 4) (allocates 0x2000 1 ∷ [])
