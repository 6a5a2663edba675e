-- ===== src/Ipc/Manager/Examples.antt =====
-- A sender and a receiver that meet through the manager, and the theorems at what they reach.
use omniagent_os.Base.{false, List, [], ◌∷◌, arith}
use omniagent_os.Base.Strings.{Bytes}
use omniagent_os.Ipc.Channel.{IpcMessageHeader, IpcChannel, clone, send, try_receive, is_full}
use omniagent_os.Ipc.Channel
use omniagent_os.Ipc.Channel.Fifo.{
  ChannelCall, Traffic, IsQueue, calls, started, calls-IsQueue, calls_closed,
}
use omniagent_os.Ipc.Channel.Fifo
use omniagent_os.Ipc.Manager.{new}
use omniagent_os.Ipc.Manager.Handles.{
  ManagerCall, creates, looks_up, sends, run, booted, IsSound, new-IsSound, run-IsSound,
}

abbrev name : Bytes
name = 99 ∷ 104 ∷ []

abbrev header : IpcMessageHeader
header = record {
  msg_id = 1;
  src_id = 1;
  dst_id = 2;
  msg_type = 1;
  flags = 0;
  payload_size = 64;
  shm_region_id = 0;
  timestamp = 1000;
}

abbrev exchange : List ChannelCall
exchange =
    Fifo.sends header
    ∷ Fifo.sends header
    ∷ Fifo.sends header
    ∷ Fifo.receives
    ∷ Fifo.closes
    ∷ Fifo.receives
    ∷ []

calls-IsQueue_example : IsQueue 2 (calls (started (Channel.new 1 name 2 1 2)) exchange)
calls-IsQueue_example = calls-IsQueue 1 2 1 2 name exchange

abbrev shut : Traffic
shut = started (record (Channel.new 1 name 2 1 2) { is_open = false })

-- The sender creates a channel, looks it up and sends; then the receiver looks it up.
abbrev script : List ManagerCall
script = creates name 10 1 2 ∷ looks_up 1 ∷ sends 0 header ∷ []

reached-IsSound : IsSound (run booted script).manager
unfolding new
reached-IsSound = run-IsSound booted script new-IsSound (omega arith)
