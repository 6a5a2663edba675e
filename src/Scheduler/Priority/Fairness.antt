-- ===== src/Scheduler/Priority/Fairness.antt =====
-- How run time is shared: the higher class is charged less for the same time.
use omniagent_os.Base.{
  ℕ, zero, suc, ◌+◌, ◌-◌, ◌*◌, ◌^◌, ◌≤◌, ◌<◌, ◌≡◌, ◌↔◌, refl, some, arith, dec_lt,
}
use omniagent_os.Scheduler.Priority.{
  PriorityClass, SchedInfo, idle, normal, agent, high, realtime, index, weight, from_u8,
  update_vruntime,
}

-- `from_u8` reads back exactly the numbers of the classes.
pub from_u8-index : (n : ℕ) (p : PriorityClass) → (from_u8 n ≡ some p) ↔ (n ≡ index p)
unfolding from_u8 index
from_u8-index zero p = (λ e. ground arith, λ e. ground arith)
from_u8-index (suc zero) p = (λ e. ground arith, λ e. ground arith)
from_u8-index (suc (suc zero)) p = (λ e. ground arith, λ e. ground arith)
from_u8-index (suc (suc (suc zero))) p = (λ e. ground arith, λ e. ground arith)
from_u8-index (suc (suc (suc (suc zero)))) p = (λ e. ground arith, λ e. ground arith)
from_u8-index (suc (suc (suc (suc (suc n))))) p = (λ e. ground arith, λ e. ground arith)

-- The virtual time of a task whose weight is that of its class, over a run that does not overflow:
-- it grows by the run time scaled by 1024 over the weight, rounded down.
pub update_vruntime-weight :
    (s : SchedInfo) (d : ℕ)
    → s.weight_of ≡ weight s.priority
    → d * 1024 < 2 ^ 64
    → s.vruntime + d * 1024 < 2 ^ 64
    → let v = (update_vruntime s d).vruntime - s.vruntime in
      (v * weight s.priority ≤ d * 1024)
      × (d * 1024 < (v + 1) * weight s.priority)
      × (s.vruntime ≤ (update_vruntime s d).vruntime)
unfolding update_vruntime weight
update_vruntime-weight s d e h k = by_class s.priority refl
  where
    by_class :
        (p : PriorityClass)
        → s.priority ≡ p
        → let v = (update_vruntime s d).vruntime - s.vruntime in
          (v * weight s.priority ≤ d * 1024)
          × (d * 1024 < (v + 1) * weight s.priority)
          × (s.vruntime ≤ (update_vruntime s d).vruntime)
    by_class idle q = ground arith
    by_class normal q = ground arith
    by_class agent q = ground arith
    by_class high q = ground arith
    by_class realtime q = ground arith

-- Of two quotients of one number, the one by the larger divisor is no larger.
quotient_le : (a b u w n : ℕ) → a * w ≤ n → n < (b + 1) * u → u ≤ w → a ≤ b
quotient_le a b u w n h k l = elim (dec_lt b a) [
  | yes more ↦
      let wide : (b + 1) * u ≤ (b + 1) * w = grind arith in
      let tall : (b + 1) * w ≤ a * w = grind arith in absurd (omega arith)
  | no same ↦ omega arith
]

weight_mono : (p q : PriorityClass) → index p ≤ index q → weight p ≤ weight q
unfolding index weight
weight_mono p q h = ground arith

-- For the same run time from the same virtual time, the task of the higher class ends no later.
pub update_vruntime_mono :
    (s t : SchedInfo) (d : ℕ)
    → s.weight_of ≡ weight s.priority
    → t.weight_of ≡ weight t.priority
    → index s.priority ≤ index t.priority
    → s.vruntime ≡ t.vruntime
    → d * 1024 < 2 ^ 64
    → s.vruntime + d * 1024 < 2 ^ 64
    → (update_vruntime t d).vruntime ≤ (update_vruntime s d).vruntime
update_vruntime_mono s t d e f le v h k =
    let (above, below, grows) = update_vruntime-weight s d e h k in
    let (above', below', grows') = update_vruntime-weight t d f h (ground arith) in
    let bound =
      quotient_le ((update_vruntime t d).vruntime - t.vruntime)
        ((update_vruntime s d).vruntime - s.vruntime) (weight s.priority) (weight t.priority)
        (d * 1024) above' below (weight_mono s.priority t.priority le) in
    ground arith
