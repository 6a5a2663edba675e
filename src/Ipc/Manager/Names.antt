-- ===== src/Ipc/Manager/Names.antt =====
-- What the manager finds, by id and by name.
use omniagent_os.Base.{
  ℕ, ◌≡◌, ◌≢◌, refl, sym, ap, ◌∙◌, true, false, Option, none, some, [], ◌∷◌, arith, ok, Bool-cases,
  inl, inr, ◌==◌, subst, ℕ_discrete,
}
use omniagent_os.Base.Each.{Each}
use omniagent_os.Base.Map.{Map, get, insert, get-insert, get-tail, IsOrdered, IsOrdered-tail}
use omniagent_os.Base.Strings.{Bytes, same, same_refl, same→eq}
use omniagent_os.Ipc.Channel.{IpcChannel, clone}
use omniagent_os.Ipc.Channel
use omniagent_os.Ipc.Manager.{
  IpcChannelManager, create_channel, get_channel, cloned, find_name, find_by_name,
}
use omniagent_os.Ipc.Manager.Handles.{IsSound}

absent :
    (m : IpcChannelManager) (o : Option IpcChannel)
    → IsSound m
    → get m.next_id m.channels ≡ o
    → o ≡ none
absent m none s e = refl
absent m (some c) s e = absurd (omega (arith, (s.entries m.next_id c e).1))

-- On a sound manager, creating a channel of a capacity other than 0 gives an id that was not in
-- use, under which the new channel is then found; every other id finds what it found.
pub create_channel-Adds :
    (m : IpcChannelManager) (name : Bytes) (capacity sender receiver : ℕ)
    → IsSound m
    → capacity ≢ 0
    → let (r, u) = create_channel m name capacity sender receiver in
      (r ≡ ok m.next_id)
      × (get_channel m m.next_id ≡ none)
      × (get_channel u m.next_id ≡ some (Channel.new m.next_id name capacity sender receiver))
      × ((j : ℕ) → j ≢ m.next_id → get_channel u j ≡ get_channel m j)
unfolding create_channel get_channel clone Channel.new
create_channel-Adds m name capacity sender receiver s h =
    let n : (capacity == 0) ≡ false = ground arith in
    let added : get m.next_id (insert m.next_id channel m.channels) ≡ some channel =
      ground (arith, get-insert m.next_id m.next_id channel m.channels) in
    simp n (
      refl,
      ap cloned (absent m (get m.next_id m.channels) s refl),
      ap cloned added,
      λ j ne. ap cloned (ground (arith, get-insert m.next_id j channel m.channels)),
    )
  where
    channel : IpcChannel
    channel = Channel.new m.next_id name capacity sender receiver

-- What a search for a name says of the table.
abbrev pub Finds : Bytes → Map IpcChannel → Option ℕ → Type 0
Finds name m none = (k : ℕ) (c : IpcChannel) → get k m ≡ some c → c.name ≢ name
Finds name m (some id) = (c : IpcChannel) × (get id m ≡ some c) × (c.name ≡ name)

abbrev HasId : ℕ → IpcChannel → Type 0
HasId k c = c.id ≡ k

later-Finds :
    (name : Bytes) (k : ℕ) (c : IpcChannel) (m : Map IpcChannel) (o : Option ℕ)
    → IsOrdered ((k, c) ∷ m)
    → same c.name name ≡ false
    → Finds name m o
    → Finds name ((k, c) ∷ m) o
unfolding get
later-Finds name k c m none o n f = λ j d e q. elim (ℕ_discrete k j) [
  | yes p ↦
      let found : some c ≡ some d = ground (arith, e, p) in
      let alike : c ≡ d = cc found in
      let named : c.name ≡ name = ap (λ (x : IpcChannel). x.name) alike ∙ q in
      absurd (cc (n, same_refl name, named))
  | no ne ↦ f j d (ground (arith, e, ne)) q
]
later-Finds name k c m (some id) o n (d, e, q) = (d, get-tail k id c d m o e, q)

own : (k : ℕ) (c : IpcChannel) (m : Map IpcChannel) → Each HasId ((k, c) ∷ m) → c.id ≡ k
unfolding get
own k c m h = h k c (ground arith)

found :
    (k : ℕ) (c : IpcChannel) (m : Map IpcChannel) (name : Bytes)
    → same c.name name ≡ true
    → Finds name ((k, c) ∷ m) (some k)
unfolding get
found k c m name y = (c, ground arith, same→eq c.name name y)

find_name-Finds :
    (name : Bytes) (m : Map IpcChannel)
    → IsOrdered m
    → Each HasId m
    → Finds name m (find_name name m)
unfolding find_name get
find_name-Finds name [] o h = λ k c e. absurd (cc e)
find_name-Finds name ((k, c) ∷ m) o h = elim (Bool-cases (same c.name name)) [
  | inl y ↦
      simp y (subst (Finds name ((k, c) ∷ m)) (ap some (sym (own k c m h))) (found k c m name y))
  | inr n ↦ simp n (
      later-Finds name k c m (find_name name m) o n
        (find_name-Finds name m (IsOrdered-tail k c m o) (λ j d e. h j d (get-tail k j c d m o e))))
]

-- On a sound manager, find_by_name gives the id of a channel of that name; it gives none exactly
-- when no channel has the name.
pub find_by_name-Finds :
    (m : IpcChannelManager) (name : Bytes) → IsSound m → Finds name m.channels (find_by_name m name)
unfolding find_by_name Channel.new
find_by_name-Finds m name s =
    find_name-Finds name m.channels s.ordered (λ k c e. ap (λ x. x.id) (s.entries k c e).0)
