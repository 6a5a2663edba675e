-- ===== src/Ipc/Failure.antt =====
-- kernel/src/ipc/error.rs: why a call fails.
use omniagent_os.Base.{ℕ}

pub data IpcError : Type 0 where
  out_of_memory : IpcError
  invalid_handle : ℕ → IpcError
  channel_not_found : ℕ → IpcError
  channel_full : IpcError
  channel_closed : IpcError
  permission_denied : IpcError
  invalid_size : ℕ → IpcError
  already_exists : ℕ → IpcError
  timeout : IpcError
