-- ===== src/Lib.antt =====
-- OmniAgent OS: the kernel's schedulers, physical and virtual memory, inter-process communication,
-- capabilities, files, audit chain and packages, and the replicated data of its distributed crate.
--
-- The kernel (kernel/src) is a set of tables behind locks. A task is created and run by the global
-- scheduler, or by the bitmap scheduler that is meant to replace it; frames of memory come from
-- one bitmap, and the kernel's own objects from a heap that only grows; an address space lists its
-- areas and maps their pages through a tree of page tables, whose frames come from the frame
-- allocator; tasks exchange message headers through channels and bulk data through a pool of shared
-- memory; tokens say which capabilities an owner has; descriptors refer to inodes, which mounts
-- find by their paths; what happens is recorded in a chain of hashed records; and packages are
-- installed in the order of their dependencies. Counters, sets, registers and vector clocks
-- (crates/omniagent-distributed) are kept in copies that are merged. But for the page tables, the
-- parts share no state with each other: each is modelled by itself, with the record of its fields
-- as the state, and every method as a function from the state before to its result and the state
-- after. A lock that a method holds for its whole body makes the method one step; the bitmap scheduler
-- also reads and writes its bitmap outside of the queues' locks, and BitmapScheduler/Interleaving.antt
-- has each such access, and each change of a queue, as a step that others can come between.
--
-- Files, and what they are about:
--   Memory/FrameAllocator.antt    kernel/src/memory/frame_allocator.rs: BitmapFrameAllocator
--   Memory/Heap.antt              kernel/src/memory/heap.rs: BumpAllocator
--   BitmapScheduler.antt          kernel/src/bitmap_scheduler/scheduler.rs: BitmapScheduler
--   Scheduler/Priority.antt       kernel/src/scheduler/priority.rs: PriorityClass, SchedInfo
--   Scheduler/Task.antt           kernel/src/scheduler/task.rs: TaskState, TaskControlBlock
--   Scheduler/RunQueue.antt       kernel/src/scheduler/run_queue.rs: PriorityTree, RunQueue
--   Scheduler/Global.antt         kernel/src/scheduler/scheduler.rs: Scheduler
--   Vm/Addr.antt                  kernel/src/memory/vm/addr.rs: VirtAddr, PhysAddr, PageNum
--   Vm/Pte.antt                   kernel/src/memory/vm/pte.rs: PageTableEntry
--   Vm/PageTable.antt             kernel/src/memory/vm/page_table.rs: PageTable
--   Vm/AddressSpace.antt          kernel/src/memory/vm/address_space.rs: AddressSpace
--   Ipc/Channel.antt              kernel/src/ipc/channel.rs: IpcChannel
--   Ipc/Manager.antt              kernel/src/ipc/channel.rs: IpcChannelManager
--   Ipc/SharedMemory.antt         kernel/src/ipc/shared_memory.rs: SharedMemoryPool
--   Capability/Token.antt         kernel/src/capability/token.rs: entries and tokens
--   Capability/Predefined.antt    kernel/src/capability/token.rs: mod predefined
--   Capability/Permission.antt    kernel/src/capability/permission.rs: PermissionChecker
--   Capability/Manager.antt       kernel/src/capability/token.rs: TokenManager
--   Fs/Inode.antt                 kernel/src/fs/inode.rs: FileStat, the trait VfsInode
--   Fs/MemoryInode.antt           kernel/src/fs/inode.rs: MemoryInode
--   Fs/FdTable.antt               kernel/src/fs/fd_table.rs: the slots, close, get, dup
--   Fs/OpenFiles.antt             kernel/src/fs/fd_table.rs: open, read, write, seek, fstat
--   Fs/Path.antt                  kernel/src/fs/path.rs: Path
--   Fs/Vfs.antt                   kernel/src/fs/vfs.rs: VfsManager
--   Security/AuditChain.antt      kernel/src/security/audit_chain.rs: AuditChain
--   Packages/Version.antt         kernel/src/package/manifest.rs: SemVersion, version_matches
--   Packages/Resolver.antt        kernel/src/package/resolver.rs: resolve
--   Packages/Cycles.antt          kernel/src/package/resolver.rs: detect_cycles
--   Packages/Conflicts.antt       kernel/src/package/resolver.rs: check_version_conflicts
--   Distributed/Clock.antt        crates/omniagent-distributed/src/crdt.rs: VectorClock
--   Distributed/Counter.antt      crates/omniagent-distributed/src/crdt.rs: CrdtCounter
--   Distributed/Replica.antt      crates/omniagent-distributed/src/crdt.rs: CrdtSet
--   Distributed/Register.antt     crates/omniagent-distributed/src/crdt.rs: CrdtRegister
-- The functions have the names of the source. Below each of these files are those with its proofs,
-- named for what they prove, and one named Examples with concrete runs. Base holds what all share:
-- tests, lists, results, strings of bytes, bits of a machine word, and BTreeMap as an ordered
-- association list with the laws of its operations.
--
-- Numbers are natural numbers; a field of w bits keeps its wrap-around as a remainder by 2 ^ w, as a
-- release build computes it. Ids that are counted up, such as those of tokens, are shown fresh while
-- the counter does not wrap around, which takes 2 ^ 63 calls or more here. An i64 is its bit pattern.
--
-- Bounds and fuel: `free_key` of Scheduler/RunQueue.antt is the search for a free key in
-- PriorityTree::enqueue, with fuel 2; the source computes the same second key in every round, so that
-- a search which needs more never ends, and then the call has no result (none). The loops over the
-- words of the bitmap, over the 1024 descriptors and over the priorities recur on their counters;
-- that over the pages of an area recurs on their number. The queue of names and the sort of
-- Packages/Resolver.antt have as many turns as there are names and edges to take out, and no result
-- where those are used up; the search of Packages/Cycles.antt goes as deep as there are dependencies.
--
-- Not modelled: slabs, agents, services, the registry of packages, configuration, access tokens,
-- network, system calls and drivers, and the other crates of user space (crates/); assembly,
-- hardware access, text output and the panic of an allocation that fails. An inode other than the one in memory is a
-- parameter, the record VfsInode of Fs/Inode.antt; the laws that the theorems on descriptors ask
-- of it are the record IsStored of Fs/OpenFiles/Storing.antt, which the inode in memory is shown
-- to fulfil.
pub mod Base
pub mod Memory
pub mod BitmapScheduler
pub mod Scheduler
pub mod Vm
pub mod Ipc
pub mod Fs
pub mod Capability
pub mod Distributed
pub mod Security
pub mod Packages
