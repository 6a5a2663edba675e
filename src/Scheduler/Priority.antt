-- ===== src/Scheduler/Priority.antt =====
-- kernel/src/scheduler/priority.rs: the priority classes and the accounting of run time. 64-bit
-- sums and products wrap, as in a release build.
pub mod Fairness
use omniagent_os.Base.{
  ℕ, zero, suc, ◌+◌, ◌*◌, ◌/◌, ◌%◌, ◌^◌, Bool, ◌||◌, Option, none, some, ltb, ◌==◌, if◌then◌else◌,
}

pub data PriorityClass : Type 0 where
  idle normal agent high realtime : PriorityClass

abbrev pub u32 : ℕ → ℕ
u32 n = n % 2 ^ 32

abbrev pub u64 : ℕ → ℕ
u64 n = n % 2 ^ 64

-- `priority as usize`
unfoldable pub index : PriorityClass → ℕ
index idle = 0
index normal = 1
index agent = 2
index high = 3
index realtime = 4

pub weight : PriorityClass → ℕ
weight idle = 3
weight normal = 1024
weight agent = 1536
weight high = 2048
weight realtime = 4096

unfoldable pub base_time_slice_ns : PriorityClass → ℕ
base_time_slice_ns idle = 1_000_000
base_time_slice_ns normal = 5_000_000
base_time_slice_ns agent = 8_000_000
base_time_slice_ns high = 10_000_000
base_time_slice_ns realtime = 20_000_000

pub from_u8 : ℕ → Option PriorityClass
from_u8 zero = some idle
from_u8 (suc zero) = some normal
from_u8 (suc (suc zero)) = some agent
from_u8 (suc (suc (suc zero))) = some high
from_u8 (suc (suc (suc (suc zero)))) = some realtime
from_u8 (suc (suc (suc (suc (suc n))))) = none

pub record SchedInfo : Type 0 where
  pub vruntime : ℕ
  pub runtime : ℕ
  pub priority : PriorityClass
  pub weight_of : ℕ  -- `weight`, u32
  pub time_slice_remain : ℕ
  pub last_sched_tick : ℕ

unfoldable pub new : PriorityClass → SchedInfo
unfolding weight base_time_slice_ns
new priority = record {
  vruntime = 0;
  runtime = 0;
  priority = priority;
  weight_of = weight priority;
  time_slice_remain = base_time_slice_ns priority;
  last_sched_tick = 0;
}

unfoldable pub update_vruntime : SchedInfo → ℕ → SchedInfo
update_vruntime s delta_runtime_ns =
    let delta_vruntime = u64 (delta_runtime_ns * 1024) / s.weight_of in
    if delta_runtime_ns == 0 || s.weight_of == 0 then s else record s {
      vruntime = u64 (s.vruntime + delta_vruntime);
      runtime = u64 (s.runtime + delta_runtime_ns);
    }

unfoldable calc_time_slice : SchedInfo → ℕ → ℕ → ℕ
unfolding base_time_slice_ns
calc_time_slice s total_weight sched_period_ns =
    let slice = u64 (sched_period_ns * s.weight_of) / total_weight in
    if total_weight == 0
    then base_time_slice_ns s.priority
    else if ltb slice 1_000_000
    then 1_000_000
    else slice
