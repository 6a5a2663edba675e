-- ===== src/Distributed/Counter.antt =====
-- crates/omniagent-distributed/src/crdt.rs: CrdtCounter. Its value wraps past 64 bits.
use omniagent_os.Base.{ℕ, ◌+◌, ◌^◌, ◌%◌, ◌≡◌, ap, [], ◌∷◌, length, arith}
use omniagent_os.Base.Map.{Map, get, insert, IsOrdered, IsOrdered-tail, get-head, Above-get}
use omniagent_os.Base.Totals.{total}
use omniagent_os.Distributed.Convergence.{IsSemilattice}
use omniagent_os.Distributed.Counts.{
  count, or_zero, increment_count, merge_counts, merge_counts-IsOrdered, merge_counts_comm,
  merge_counts_assoc, merge_counts_idem,
}

pub record CrdtCounter : Type 0 where
  pub counts : Map ℕ

unfoldable pub new : CrdtCounter
new = record { counts = [] }

unfoldable pub increment : CrdtCounter → ℕ → CrdtCounter
increment c node = record { counts = increment_count node c.counts }

unfoldable pub merge : CrdtCounter → CrdtCounter → CrdtCounter
merge c other = record { counts = merge_counts c.counts other.counts }

abbrev one : ℕ → ℕ
one n = n

unfoldable pub value : CrdtCounter → ℕ
value c = total one c.counts % 2 ^ 64

unfoldable pub get_count : CrdtCounter → ℕ → ℕ
get_count c node = count node c.counts

pub node_count : CrdtCounter → ℕ
node_count c = length c.counts

-- A node has one count, of 64 bits.
abbrev pub IsCounter : CrdtCounter → Type 0
IsCounter c = IsOrdered c.counts

-- `merge` of counters is closed, commutes, associates and is idempotent.
pub merge-IsCounter : IsSemilattice IsCounter merge
unfolding merge
merge-IsCounter = record {
  closed = λ a b o p. merge_counts-IsOrdered a.counts b.counts o;
  commutes = λ a b o p. ap counter (merge_counts_comm a.counts b.counts o p);
  associates = λ a b c o p q. ap counter (merge_counts_assoc a.counts b.counts c.counts o p q);
  repeats = λ a o. ap counter (merge_counts_idem a.counts o);
}
  where
    counter : Map ℕ → CrdtCounter
    counter m = record { counts = m }

total-insert :
    (k v : ℕ) (m : Map ℕ)
    → IsOrdered m
    → total one (insert k v m) + or_zero (get k m) ≡ total one m + v
unfolding get insert
total-insert k v [] o = omega arith
total-insert k v ((j, w) ∷ m) o =
    ground (arith, total-insert k v m (IsOrdered-tail j w m o), get-head j w m o, Above-get j k m o)

-- An increment adds one to the value, which wraps as the counts do.
pub value-increment :
    (c : CrdtCounter) (node : ℕ) → IsCounter c → value (increment c node) ≡ (value c + 1) % 2 ^ 64
unfolding value increment increment_count count
value-increment c node o =
    let sum = total-insert node ((or_zero (get node c.counts) + 1) % 2 ^ 64) c.counts o in
    omega (arith, sum)
