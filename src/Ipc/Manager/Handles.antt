-- ===== src/Ipc/Manager/Handles.antt =====
-- The manager and the copies of its channels that its clients hold.
use omniagent_os.Base.{
  ℕ, suc, ◌+◌, ◌%◌, ◌^◌, ◌≤◌, ◌<◌, ◌≡◌, refl, sym, ap, ◌∙◌, true, Option, none, some, List, [], ◌∷◌,
  length, arith, subst, Bool-cases, inl, inr, ◌==◌, get_elem?, set,
}
use omniagent_os.Base.Map.{get, IsOrdered, insert-IsOrdered, remove-IsOrdered}
use omniagent_os.Base.Each.{Each, Each-insert, Each-remove}
use omniagent_os.Base.Strings.{Bytes}
use omniagent_os.Ipc.Channel.{IpcMessageHeader, IpcChannel, clone, send, try_receive, close}
use omniagent_os.Ipc.Channel
use omniagent_os.Ipc.Manager.{
  IpcChannelManager, new, create_channel, removed, destroy_channel, cloned, get_channel,
}

-- The manager and the channels that `get_channel` has handed out, the last one first.
pub record World : Type 0 where
  pub manager : IpcChannelManager
  pub handles : List IpcChannel

pub data ManagerCall : Type 0 where
  creates : Bytes → ℕ → ℕ → ℕ → ManagerCall
  destroys : ℕ → ManagerCall
  looks_up : ℕ → ManagerCall
  sends : ℕ → IpcMessageHeader → ManagerCall
  receives : ℕ → ManagerCall
  closes : ℕ → ManagerCall

abbrev pub handed : World → Option IpcChannel → World
handed w none = w
handed w (some c) = record w { handles = c ∷ w.handles }

-- A call on the handle at a place of the list; there is no such handle beyond its end.
abbrev pub at_handle : World → ℕ → (IpcChannel → IpcChannel) → Option IpcChannel → World
at_handle w i f none = w
at_handle w i f (some c) = record w { handles = set w.handles i (f c) }

unfoldable pub step : World → ManagerCall → World
step w (creates name capacity sender receiver) = record w {
  manager = (create_channel w.manager name capacity sender receiver).1;
}
step w (destroys id) = record w { manager = (destroy_channel w.manager id).1 }
step w (looks_up id) = handed w (get_channel w.manager id)
step w (sends i h) = at_handle w i (λ c. (send c h).1) (get_elem? w.handles i)
step w (receives i) = at_handle w i (λ c. (try_receive c).1) (get_elem? w.handles i)
step w (closes i) = at_handle w i close (get_elem? w.handles i)

unfoldable pub run : World → List ManagerCall → World
run w [] = w
run w (c ∷ cs) = run (step w c) cs

-- As it was created.
abbrev pub IsUnused : ℕ → IpcChannel → Type 0
IsUnused id c = c ≡ Channel.new id c.name c.capacity c.sender_id c.receiver_id

-- What the table holds under an id.
abbrev pub IsEntry : ℕ → ℕ → IpcChannel → Type 0
IsEntry next id c = IsUnused id c × (id < next)

pub record IsSound (m : IpcChannelManager) : Type 0 where
  pub ordered : IsOrdered m.channels
  pub entries : Each (IsEntry m.next_id) m.channels

create-IsSound :
    (m : IpcChannelManager) (name : Bytes) (capacity sender receiver : ℕ)
    → m.next_id + 1 < 2 ^ 64
    → IsSound m
    → IsSound (create_channel m name capacity sender receiver).1
unfolding create_channel
create-IsSound m name capacity sender receiver h s = elim (Bool-cases (capacity == 0)) [
  | inl z ↦ simp z s
  | inr n ↦ simp n (record {
    ordered = insert-IsOrdered m.next_id channel m.channels s.ordered;
    entries =
        Each-insert (IsEntry ((m.next_id + 1) % 2 ^ 64)) m.next_id channel m.channels
          (λ id c e. let (u, b) = s.entries id c e in (u, omega arith))
          (unfold Channel.new in refl, omega arith);
  })
]
  where
    channel : IpcChannel
    channel = Channel.new m.next_id name capacity sender receiver

removed-IsSound :
    (m : IpcChannelManager) (id : ℕ) (o : Option IpcChannel)
    → IsSound m
    → IsSound (removed m id o).1
removed-IsSound m id none s = s
removed-IsSound m id (some c) s = record {
  ordered = remove-IsOrdered id m.channels s.ordered;
  entries = Each-remove (IsEntry m.next_id) id m.channels s.entries;
}

create-next :
    (m : IpcChannelManager) (name : Bytes) (capacity sender receiver : ℕ)
    → m.next_id + 1 < 2 ^ 64
    → (create_channel m name capacity sender receiver).1.next_id ≤ m.next_id + 1
unfolding create_channel
create-next m name capacity sender receiver h = ground arith

removed-next :
    (m : IpcChannelManager) (id : ℕ) (o : Option IpcChannel)
    → (removed m id o).1.next_id ≡ m.next_id
removed-next m id none = refl
removed-next m id (some c) = refl

handed-manager : (w : World) (o : Option IpcChannel) → (handed w o).manager ≡ w.manager
handed-manager w none = refl
handed-manager w (some c) = refl

at_handle-manager :
    (w : World) (i : ℕ) (f : IpcChannel → IpcChannel) (o : Option IpcChannel)
    → (at_handle w i f o).manager ≡ w.manager
at_handle-manager w i f none = refl
at_handle-manager w i f (some c) = refl

-- Sound, and far enough from the end of the ids for some more calls.
abbrev IsGood : ℕ → IpcChannelManager → Type 0
IsGood n m = IsSound m × (m.next_id + n < 2 ^ 64)

step-IsGood :
    (n : ℕ) (w : World) (c : ManagerCall) → IsGood (suc n) w.manager → IsGood n (step w c).manager
unfolding step destroy_channel
step-IsGood n w (creates name capacity sender receiver) (s, b) = (
  create-IsSound w.manager name capacity sender receiver (omega arith) s,
  omega (arith, create-next w.manager name capacity sender receiver),
)
step-IsGood n w (destroys id) (s, b) = (
  removed-IsSound w.manager id (get id w.manager.channels) s,
  omega (arith, removed-next w.manager id (get id w.manager.channels)),
)
step-IsGood n w (looks_up id) (s, b) =
    subst (IsGood n) (sym (handed-manager w (get_channel w.manager id))) (s, omega arith)
step-IsGood n w (sends i h) (s, b) =
    subst (IsGood n) (sym (at_handle-manager w i (λ c. (send c h).1) (get_elem? w.handles i)))
      (s, omega arith)
step-IsGood n w (receives i) (s, b) =
    subst (IsGood n) (sym (at_handle-manager w i (λ c. (try_receive c).1) (get_elem? w.handles i)))
      (s, omega arith)
step-IsGood n w (closes i) (s, b) =
    subst (IsGood n) (sym (at_handle-manager w i close (get_elem? w.handles i))) (s, omega arith)

pub run-IsSound :
    (w : World) (cs : List ManagerCall)
    → IsSound w.manager
    → w.manager.next_id + length cs < 2 ^ 64
    → IsSound (run w cs).manager
unfolding run
run-IsSound w [] s b = s
run-IsSound w (c ∷ cs) s b =
    let (t, d) = step-IsGood (length cs) w c (s, b) in run-IsSound (step w c) cs t d

pub new-IsSound : IsSound new
unfolding new get
new-IsSound = record { ordered = tt; entries = λ k v e. absurd (cc e) }

abbrev pub booted : World
booted = record { manager = new; handles = [] }

clone-Unused :
    (id : ℕ) (o : Option IpcChannel) (c : IpcChannel)
    → ((d : IpcChannel) → o ≡ some d → IsUnused id d)
    → cloned o ≡ some c
    → (c.buffer ≡ []) × (c.is_open ≡ true) × (c.msg_count ≡ 0) × (c.id ≡ id)
unfolding clone Channel.new
clone-Unused id none c u e = absurd (cc e)
clone-Unused id (some d) c u e =
    let same : clone d ≡ c = cc e in
    let unused = u d refl in
    (
      sym (ap (λ x. x.buffer) same),
      sym (ap (λ x. x.is_open) same) ∙ ap (λ x. x.is_open) unused,
      sym (ap (λ x. x.msg_count) same) ∙ ap (λ x. x.msg_count) unused,
      sym (ap (λ x. x.id) same) ∙ ap (λ x. x.id) unused,
    )

-- After fewer than 2 ^ 63 calls from a new manager, whatever was sent through the handles that
-- `get_channel` gave out: the handle that it gives out next is open, has the id that was asked for,
-- an empty buffer and no message counted.
pub get_channel-Unused :
    (cs : List ManagerCall) (id : ℕ) (c : IpcChannel)
    → length cs < 2 ^ 63
    → get_channel (run booted cs).manager id ≡ some c
    → (c.buffer ≡ []) × (c.is_open ≡ true) × (c.msg_count ≡ 0) × (c.id ≡ id)
unfolding get_channel new
get_channel-Unused cs id c b e =
    let s = run-IsSound booted cs new-IsSound (omega arith) in
    clone-Unused id (get id (run booted cs).manager.channels) c (λ d g. (s.entries id d g).0) e
