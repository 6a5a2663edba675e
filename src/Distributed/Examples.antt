-- ===== src/Distributed/Examples.antt =====
-- Clocks, counters, sets and registers of two nodes, and the theorems there.
use omniagent_os.Base.{ℕ, ◌+◌, ◌≡◌, refl, false, Option, some, [], ◌∷◌, arith}
use omniagent_os.Base.Map.{Map}
use omniagent_os.Base.Map
use omniagent_os.Distributed.Convergence.{swap, deliver}
use omniagent_os.Distributed.Clock.{VectorClock, compare}
use omniagent_os.Distributed.Clock.Causality.{Causal, compare-Causal}
use omniagent_os.Distributed.Replica.{CrdtSet, remove_item, contains, new}
use omniagent_os.Distributed.Replica
use omniagent_os.Distributed.Replica.Invariant.{IsReplica}
use omniagent_os.Distributed.Replica.Removal.{adds, merges, set_calls, contains-remove_item}
use omniagent_os.Distributed.Register.{CrdtRegister, with_value}
use omniagent_os.Distributed.Register
use omniagent_os.Distributed.Converging.{deliver-sets, deliver-registers}

abbrev here : VectorClock
here = record { entries = (1, 4) ∷ (2, 1) ∷ [] }

abbrev there : VectorClock
there = record { entries = (2, 3) ∷ (5, 1) ∷ [] }

compare-Causal_example : Causal here there (compare here there)
compare-Causal_example = compare-Causal here there

abbrev fruits : CrdtSet
fruits = record { items = (1, tt) ∷ (4, tt) ∷ []; tombstones = (2, tt) ∷ [] }

abbrev roots : CrdtSet
roots = record { items = (2, tt) ∷ (7, tt) ∷ []; tombstones = (4, tt) ∷ [] }

fruits-IsReplica : IsReplica fruits
unfolding contains Map.get
fruits-IsReplica = record {
  items_order = (omega arith, tt);
  tombs_order = tt;
  alive = λ x. ground arith;
}

roots-IsReplica : IsReplica roots
unfolding contains Map.get
roots-IsReplica = record {
  items_order = (omega arith, tt);
  tombs_order = tt;
  alive = λ x. ground arith;
}

deliver-sets_example :
    deliver Replica.merge fruits (roots ∷ fruits ∷ [])
    ≡ deliver Replica.merge fruits (fruits ∷ roots ∷ [])
deliver-sets_example =
    deliver-sets fruits (roots ∷ fruits ∷ []) (fruits ∷ roots ∷ []) fruits-IsReplica
      (roots-IsReplica, (fruits-IsReplica, tt)) (swap roots fruits [])

contains-remove_item_example :
    contains (set_calls (remove_item fruits 1) (adds 1 ∷ merges roots ∷ merges fruits ∷ [])) 1
    ≡ false
contains-remove_item_example =
    contains-remove_item fruits 1 (adds 1 ∷ merges roots ∷ merges fruits ∷ []) fruits-IsReplica

abbrev written : ℕ → ℕ → Option ℕ
written timestamp node = some (timestamp + node)

abbrev first_write : CrdtRegister ℕ
first_write = record { value = some 5; timestamp = 3; node = 2 }

abbrev second_write : CrdtRegister ℕ
second_write = record { value = some 7; timestamp = 3; node = 4 }

deliver-registers_example :
    deliver Register.merge first_write (second_write ∷ first_write ∷ [])
    ≡ deliver Register.merge first_write (first_write ∷ second_write ∷ [])
deliver-registers_example =
    deliver-registers ℕ written first_write (second_write ∷ first_write ∷ [])
      (first_write ∷ second_write ∷ []) refl (refl, (refl, tt)) (swap second_write first_write [])
