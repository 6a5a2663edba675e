-- ===== src/Ipc.antt =====
-- kernel/src/ipc: channels of message headers, and the pool of shared memory they refer to.
pub mod Failure
pub mod Channel
pub mod Manager
pub mod SharedMemory
