-- ===== src/Scheduler/Task.antt =====
-- kernel/src/scheduler/task.rs: the states of a task, its flags, its saved registers and its
-- control block. A task's id is a number; the exit code is the bit pattern of an `i32`.
use omniagent_os.Base.{ℕ, Bool, true, false, Option, none, List, [], if◌then◌else◌}
use omniagent_os.Base.Bits.{set_bit}
use omniagent_os.Scheduler.Priority.{PriorityClass, SchedInfo}
use omniagent_os.Scheduler.Priority

pub data TaskState : Type 0 where
  created ready running blocked zombie : TaskState

pub TaskState-discrete : Discrete TaskState
TaskState-discrete = hlevel

unfoldable pub is_state : TaskState → TaskState → Bool
is_state created created = true
is_state ready ready = true
is_state running running = true
is_state blocked blocked = true
is_state zombie zombie = true
is_state _ _ = false

unfoldable pub can_transition : TaskState → TaskState → Bool
unfolding is_state
can_transition created ready = true
can_transition ready running = true
can_transition running ready = true
can_transition running blocked = true
can_transition running zombie = true
can_transition blocked ready = true
can_transition a b = is_state a b

-- The positions of the flags in the word of `TaskFlags`.
abbrev pub need_resched : ℕ
need_resched = 0

abbrev pub exited : ℕ
exited = 1

abbrev pub is_kernel : ℕ
is_kernel = 2

abbrev pub is_agent : ℕ
is_agent = 3

abbrev pub is_idle : ℕ
is_idle = 4

pub record ContextFrame : Type 0 where
  pub rax : ℕ
  pub rbx : ℕ
  pub rcx : ℕ
  pub rdx : ℕ
  pub rsi : ℕ
  pub rdi : ℕ
  pub rbp : ℕ
  pub r8 : ℕ
  pub r9 : ℕ
  pub r10 : ℕ
  pub r11 : ℕ
  pub r12 : ℕ
  pub r13 : ℕ
  pub r14 : ℕ
  pub r15 : ℕ
  pub rip : ℕ
  pub cs : ℕ
  pub rflags : ℕ
  pub rsp : ℕ
  pub ss : ℕ

pub new_frame : ℕ → ℕ → Bool → ContextFrame
new_frame entry_point stack_top is_user = record {
  rax = 0;
  rbx = 0;
  rcx = 0;
  rdx = 0;
  rsi = 0;
  rdi = 0;
  rbp = 0;
  r8 = 0;
  r9 = 0;
  r10 = 0;
  r11 = 0;
  r12 = 0;
  r13 = 0;
  r14 = 0;
  r15 = 0;
  rip = entry_point;
  cs = if is_user then 0x23 else 0x08;
  rflags = 0x202;
  rsp = stack_top;
  ss = if is_user then 0x2b else 0x10;
}

pub record TaskControlBlock : Type 0 where
  pub id : ℕ
  pub state : TaskState
  pub flags : ℕ  -- TaskFlags
  pub sched_info : SchedInfo
  pub context : ContextFrame
  pub agent_handle : Option ℕ
  pub exit_code : ℕ
  pub parent_id : Option ℕ
  pub children : List ℕ
  pub wait_channel : ℕ
  pub create_time : ℕ

unfoldable pub new_task : ℕ → ℕ → ℕ → PriorityClass → Bool → Option ℕ → TaskControlBlock
unfolding new_frame
new_task id entry stack_top priority is_user agent_handle = record {
  id = id;
  state = created;
  flags = if is_user then 0 else set_bit 0 is_kernel;
  sched_info = Priority.new priority;
  context = new_frame entry stack_top is_user;
  agent_handle = agent_handle;
  exit_code = 0;
  parent_id = none;
  children = [];
  wait_channel = 0;
  create_time = 0;
}
