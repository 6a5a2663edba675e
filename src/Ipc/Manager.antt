-- ===== src/Ipc/Manager.antt =====
-- kernel/src/ipc/channel.rs, `IpcChannelManager`: the table of the channels, by id.
pub mod Handles
pub mod Names
pub mod Examples
use omniagent_os.Base.{
  ℕ, ◌+◌, ◌%◌, ◌^◌, Bool, true, false, Option, none, some, List, [], ◌∷◌, map, length, ◌==◌,
  if◌then◌else◌, Result, ok, err,
}
use omniagent_os.Base.Map.{Map, get, insert, remove}
use omniagent_os.Base.Strings.{Bytes, same}
use omniagent_os.Ipc.Failure.{IpcError, invalid_size, channel_not_found}
use omniagent_os.Ipc.Channel.{IpcChannel, clone}
use omniagent_os.Ipc.Channel

pub record IpcChannelManager : Type 0 where
  pub channels : Map IpcChannel
  pub next_id : ℕ

pub new : IpcChannelManager
new = record { channels = []; next_id = 1 }

pub create_channel : IpcChannelManager → Bytes → ℕ → ℕ → ℕ → Result ℕ IpcError × IpcChannelManager
create_channel m name capacity sender receiver =
    if capacity == 0 then (err (invalid_size capacity), m) else (
      ok m.next_id,
      record {
        channels =
            insert m.next_id (Channel.new m.next_id name capacity sender receiver) m.channels;
        next_id = (m.next_id + 1) % 2 ^ 64;
      },
    )

abbrev pub removed :
    IpcChannelManager → ℕ → Option IpcChannel → Result (Unit {0}) IpcError × IpcChannelManager
removed m id none = (err (channel_not_found id), m)
removed m id (some c) = (ok tt, record m { channels = remove id m.channels })

pub destroy_channel : IpcChannelManager → ℕ → Result (Unit {0}) IpcError × IpcChannelManager
destroy_channel m id = removed m id (get id m.channels)

abbrev pub cloned : Option IpcChannel → Option IpcChannel
cloned none = none
cloned (some c) = some (clone c)

pub get_channel : IpcChannelManager → ℕ → Option IpcChannel
get_channel m id = cloned (get id m.channels)

pub find_name : Bytes → Map IpcChannel → Option ℕ
find_name name [] = none
find_name name ((k, c) ∷ cs) =
    let rest = find_name name cs in if same c.name name then some c.id else rest

pub find_by_name : IpcChannelManager → Bytes → Option ℕ
find_by_name m name = find_name name m.channels

unfoldable list_channels : IpcChannelManager → List IpcChannel
list_channels m = map (λ e. clone e.1) m.channels

unfoldable channel_count : IpcChannelManager → ℕ
channel_count m = length m.channels
