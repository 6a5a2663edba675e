-- ===== src/Distributed/Clock.antt =====
-- crates/omniagent-distributed/src/crdt.rs: VectorClock. The comparison goes through the nodes of
-- either clock, each once.
pub mod Causality
use omniagent_os.Base.{
  ℕ, ◌+◌, ◌^◌, ◌%◌, ◌≤◌, ◌<◌, max, ◌≡◌, ◌≢◌, refl, sym, ap, ◌∙◌, subst, Bool, true, false, ◌&&◌,
  ◌||◌, not, Option, none, some, List, [], ◌∷◌, ◌++◌, ◌==◌, ltb, if◌then◌else◌, length, is_empty,
  arith, Bool-cases, inl, inr, ◌⊎◌, map,
}
use omniagent_os.Base.Map.{Map, get, insert, IsOrdered, get-insert, insert-IsOrdered}
use omniagent_os.Distributed.Counts.{
  count, or_zero, increment_count, merge_counts, merge_counts-IsOrdered, merge_counts_comm,
  merge_counts_assoc, merge_counts_idem, count-merge_counts, count-increment_count,
}

pub data CausalOrder : Type 0 where
  before : CausalOrder
  after : CausalOrder
  concurrent : CausalOrder
  equal : CausalOrder

pub record VectorClock : Type 0 where
  pub entries : Map ℕ

unfoldable pub new : VectorClock
new = record { entries = [] }

unfoldable pub increment : VectorClock → ℕ → VectorClock
increment c node = record { entries = increment_count node c.entries }

unfoldable pub merge : VectorClock → VectorClock → VectorClock
merge c other = record { entries = merge_counts c.entries other.entries }

unfoldable pub get_count : VectorClock → ℕ → ℕ
get_count c node = count node c.entries

pub len : VectorClock → ℕ
len c = length c.entries

pub is_empty_clock : VectorClock → Bool
is_empty_clock c = is_empty c.entries

-- `keys().chain(…).collect()` into a set: the keys of both, each once.
abbrev pub all_nodes : Map ℕ → Map ℕ → Map (Unit {0})
all_nodes [] [] = []
all_nodes [] ((node, n) ∷ others) = insert node tt (all_nodes [] others)
all_nodes ((node, n) ∷ es) others = insert node tt (all_nodes es others)

-- Whether some node has less, and whether some node has more, in the first clock.
abbrev pub scan : Map ℕ → Map ℕ → Map (Unit {0}) → Bool × Bool → Bool × Bool
scan es others [] found = found
scan es others ((node, u) ∷ nodes) (has_less, has_greater) =
    let mine = count node es in
    let theirs = count node others in
    scan es others nodes (
      if ltb mine theirs
      then (true, has_greater)
      else (if ltb theirs mine then (has_less, true) else (has_less, has_greater)))

abbrev pub causal : Bool × Bool → CausalOrder
causal (false, false) = equal
causal (true, false) = before
causal (false, true) = after
causal (true, true) = concurrent

unfoldable pub compare : VectorClock → VectorClock → CausalOrder
compare c other =
    causal (scan c.entries other.entries (all_nodes c.entries other.entries) (false, false))
