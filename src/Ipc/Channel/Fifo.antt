-- ===== src/Ipc/Channel/Fifo.antt =====
-- A channel is a bounded queue: what calls on it send and receive, in order.
use omniagent_os.Base.{
  ℕ, ◌%◌, ◌^◌, ◌≤◌, ◌≡◌, refl, sym, ap, ◌∙◌, false, Option, none, some, List, [], ◌∷◌, ◌++◌, length,
  length-append, arith, Result, ok, err, Bool-cases, inl, inr,
}
use omniagent_os.Base.Strings.{Bytes}
use omniagent_os.Ipc.Channel.{
  IpcMessageHeader, IpcChannel, new, is_full, send, try_receive, close, pop_front,
}
use omniagent_os.Ipc.Failure.{IpcError}

pub data ChannelCall : Type 0 where
  sends : IpcMessageHeader → ChannelCall
  receives : ChannelCall
  closes : ChannelCall

-- A channel with the headers that it accepted and the headers that it handed out, in order.
pub record Traffic : Type 0 where
  pub channel : IpcChannel
  pub accepted : List IpcMessageHeader
  pub received : List IpcMessageHeader

abbrev pub sent : Traffic → IpcMessageHeader → Result (Unit {0}) IpcError × IpcChannel → Traffic
sent t h (ok u, c) = record t { channel = c; accepted = t.accepted ++ (h ∷ []) }
sent t h (err e, c) = record t { channel = c }

abbrev pub got : Traffic → Option IpcMessageHeader × IpcChannel → Traffic
got t (none, c) = record t { channel = c }
got t (some h, c) = record t { channel = c; received = t.received ++ (h ∷ []) }

unfoldable pub call : Traffic → ChannelCall → Traffic
call t (sends h) = sent t h (send t.channel h)
call t receives = got t (try_receive t.channel)
call t closes = record t { channel = close t.channel }

unfoldable pub calls : Traffic → List ChannelCall → Traffic
calls t [] = t
calls t (c ∷ cs) = calls (call t c) cs

abbrev pub started : IpcChannel → Traffic
started c = record { channel = c; accepted = []; received = [] }

-- The channel is a queue of bounded length between what it accepted and what it handed out.
pub record IsQueue (capacity : ℕ) (t : Traffic) : Type 0 where
  pub fifo : t.accepted ≡ t.received ++ t.channel.buffer
  pub bounded : length t.channel.buffer ≤ t.channel.capacity
  pub fixed : t.channel.capacity ≡ capacity
  pub counted : t.channel.msg_count ≡ length t.accepted % 2 ^ 64

++_assoc {ℓ} : {A : Type ℓ} (xs ys zs : List A) → (xs ++ ys) ++ zs ≡ xs ++ (ys ++ zs)
++_assoc [] ys zs = refl
++_assoc (x ∷ xs) ys zs = ap (λ l. x ∷ l) (++_assoc xs ys zs)

sends-IsQueue :
    (capacity : ℕ) (t : Traffic) (h : IpcMessageHeader)
    → IsQueue capacity t
    → IsQueue capacity (sent t h (send t.channel h))
unfolding send is_full
sends-IsQueue capacity t h q = elim (Bool-cases t.channel.is_open) [
  | inr n ↦ simp n q
  | inl y ↦ simp y (elim (Bool-cases (is_full t.channel)) [
    | inl f ↦ simp f q
    | inr n ↦ simp n (record {
      fifo = ap (λ l. l ++ (h ∷ [])) q.fifo ∙ ++_assoc t.received t.channel.buffer (h ∷ []);
      bounded = ground (arith, length-append t.channel.buffer (h ∷ []));
      fixed = q.fixed;
      counted = ground (arith, q.counted, length-append t.accepted (h ∷ []));
    })
  ])
]

popped-IsQueue :
    (capacity : ℕ) (t : Traffic) (b : List IpcMessageHeader)
    → t.channel.buffer ≡ b
    → IsQueue capacity t
    → IsQueue capacity (got t (pop_front t.channel b))
popped-IsQueue capacity t [] e q = q
popped-IsQueue capacity t (h ∷ hs) e q = record {
  fifo = q.fifo ∙ ap (λ l. t.received ++ l) e ∙ sym (++_assoc t.received (h ∷ []) hs);
  bounded = ground (arith, q.bounded, ap length e);
  fixed = q.fixed;
  counted = q.counted;
}

call-IsQueue :
    (capacity : ℕ) (t : Traffic) (c : ChannelCall)
    → IsQueue capacity t
    → IsQueue capacity (call t c)
unfolding call try_receive close
call-IsQueue capacity t (sends h) q = sends-IsQueue capacity t h q
call-IsQueue capacity t receives q = elim (Bool-cases t.channel.is_open) [
  | inl y ↦ simp y (popped-IsQueue capacity t t.channel.buffer refl q)
  | inr n ↦ simp n q
]
call-IsQueue capacity t closes q = record {
  fifo = q.fifo;
  bounded = q.bounded;
  fixed = q.fixed;
  counted = q.counted;
}

calls_from :
    (capacity : ℕ) (t : Traffic) (cs : List ChannelCall)
    → IsQueue capacity t
    → IsQueue capacity (calls t cs)
unfolding calls
calls_from capacity t [] q = q
calls_from capacity t (c ∷ cs) q = calls_from capacity (call t c) cs (call-IsQueue capacity t c q)

-- Over any calls on a new channel, the headers accepted are those handed out followed by those in
-- the buffer, in order; the buffer never exceeds the capacity, and `msg_count` is the number
-- accepted modulo 2 ^ 64.
pub calls-IsQueue :
    (id capacity sender receiver : ℕ) (name : Bytes) (cs : List ChannelCall)
    → IsQueue capacity (calls (started (new id name capacity sender receiver)) cs)
unfolding new
calls-IsQueue id capacity sender receiver name cs =
    calls_from capacity (started (new id name capacity sender receiver)) cs
      (record { fifo = refl; bounded = omega arith; fixed = refl; counted = refl })

-- From when it is closed, a channel accepts no header and hands none out: whatever the calls,
-- nothing changes.
pub calls_closed :
    (t : Traffic) (cs : List ChannelCall) → t.channel.is_open ≡ false → calls t cs ≡ t
unfolding calls call send try_receive close
calls_closed t [] e = refl
calls_closed t (sends h ∷ cs) e = simp e (calls_closed t cs e)
calls_closed t (receives ∷ cs) e = simp e (calls_closed t cs e)
calls_closed t (closes ∷ cs) e =
    calls_closed (record t { channel = record t.channel { is_open = false } }) cs refl
    ∙ ap (λ b. record t { channel = record t.channel { is_open = b } }) (sym e)
