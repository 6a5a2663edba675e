-- ===== src/Ipc/Channel.antt =====
-- kernel/src/ipc/channel.rs, `IpcChannel`: a bounded queue of message headers. A call that goes
-- through `&self` and changes the atomics or the locked buffer returns the channel it leaves.
pub mod Fifo
use omniagent_os.Base.{
  ℕ, ◌+◌, ◌%◌, ◌^◌, Bool, true, false, Option, none, some, List, [], ◌∷◌, ◌++◌, length, leb, ◌==◌,
  if◌then◌else◌, Result, ok, err,
}
use omniagent_os.Base.Strings.{Bytes}
use omniagent_os.Ipc.Failure.{IpcError, channel_full, channel_closed}

pub record IpcMessageHeader : Type 0 where
  pub msg_id : ℕ
  pub src_id : ℕ
  pub dst_id : ℕ
  pub msg_type : ℕ
  pub flags : ℕ
  pub payload_size : ℕ
  pub shm_region_id : ℕ
  pub timestamp : ℕ

pub record IpcChannel : Type 0 where
  pub id : ℕ
  pub name : Bytes
  pub capacity : ℕ
  pub buffer : List IpcMessageHeader
  pub sender_id : ℕ
  pub receiver_id : ℕ
  pub is_open : Bool
  pub msg_count : ℕ

-- A clone has an empty buffer of its own.
unfoldable pub clone : IpcChannel → IpcChannel
clone c = record c { buffer = [] }

unfoldable pub new : ℕ → Bytes → ℕ → ℕ → ℕ → IpcChannel
new id name capacity sender receiver = record {
  id = id;
  name = name;
  capacity = capacity;
  buffer = [];
  sender_id = sender;
  receiver_id = receiver;
  is_open = true;
  msg_count = 0;
}

unfoldable pub is_full : IpcChannel → Bool
is_full c = leb c.capacity (length c.buffer)

unfoldable is_empty : IpcChannel → Bool
is_empty c = length c.buffer == 0

unfoldable pub send : IpcChannel → IpcMessageHeader → Result (Unit {0}) IpcError × IpcChannel
unfolding is_full
send c header =
    if c.is_open
    then if is_full c then (err channel_full, c) else (
      ok tt,
      record c { buffer = c.buffer ++ (header ∷ []); msg_count = (c.msg_count + 1) % 2 ^ 64 },
    )
    else (err channel_closed, c)

abbrev pub pop_front : IpcChannel → List IpcMessageHeader → Option IpcMessageHeader × IpcChannel
pop_front c [] = (none, c)
pop_front c (h ∷ hs) = (some h, record c { buffer = hs })

pub try_receive : IpcChannel → Option IpcMessageHeader × IpcChannel
try_receive c = if c.is_open then pop_front c c.buffer else (none, c)

unfoldable pub close : IpcChannel → IpcChannel
close c = record c { is_open = false }
