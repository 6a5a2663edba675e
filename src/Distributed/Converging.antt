-- ===== src/Distributed/Converging.antt =====
-- The replicated data types converge: what a replica is sent may come in any order, and repeatedly.
use omniagent_os.Base.{ℕ, ◌≡◌, Option, List}
use omniagent_os.Base.All.{All}
use omniagent_os.Distributed.Convergence.{Redelivers, deliver, deliver-Redelivers}
use omniagent_os.Distributed.Clock.{VectorClock}
use omniagent_os.Distributed.Clock
use omniagent_os.Distributed.Clock.Causality.{IsClock, merge-IsSemilattice}
use omniagent_os.Distributed.Counter.{CrdtCounter, IsCounter, merge-IsCounter}
use omniagent_os.Distributed.Counter
use omniagent_os.Distributed.Replica.{CrdtSet}
use omniagent_os.Distributed.Replica
use omniagent_os.Distributed.Replica.Invariant.{IsReplica, merge-IsReplicas}
use omniagent_os.Distributed.Register.{CrdtRegister, IsWritten, merge-IsWritten}
use omniagent_os.Distributed.Register

-- A clock that merges the clocks it is sent ends the same, in whatever order and however often they
-- come.
pub deliver-clocks :
    (s : VectorClock) (xs ys : List VectorClock)
    → IsClock s
    → All IsClock xs
    → Redelivers xs ys
    → deliver Clock.merge s xs ≡ deliver Clock.merge s ys
deliver-clocks s xs ys h hs r = deliver-Redelivers IsClock Clock.merge merge-IsSemilattice s r h hs

-- A counter that merges the counters it is sent ends the same, in whatever order and however often
-- they come.
pub deliver-counters :
    (s : CrdtCounter) (xs ys : List CrdtCounter)
    → IsCounter s
    → All IsCounter xs
    → Redelivers xs ys
    → deliver Counter.merge s xs ≡ deliver Counter.merge s ys
deliver-counters s xs ys h hs r =
    deliver-Redelivers IsCounter Counter.merge merge-IsCounter s r h hs

-- A set that merges the sets it is sent ends the same, in whatever order and however often they
-- come.
pub deliver-sets :
    (s : CrdtSet) (xs ys : List CrdtSet)
    → IsReplica s
    → All IsReplica xs
    → Redelivers xs ys
    → deliver Replica.merge s xs ≡ deliver Replica.merge s ys
deliver-sets s xs ys h hs r = deliver-Redelivers IsReplica Replica.merge merge-IsReplicas s r h hs

-- A register that merges the registers it is sent ends the same, in whatever order and however
-- often they come, if one history says what each of them holds for its time and node.
pub deliver-registers :
    (T : Type 0) (history : ℕ → ℕ → Option T) (s : CrdtRegister T) (xs ys : List (CrdtRegister T))
    → IsWritten history s
    → All (IsWritten history) xs
    → Redelivers xs ys
    → deliver Register.merge s xs ≡ deliver Register.merge s ys
deliver-registers T history s xs ys h hs r =
    deliver-Redelivers (IsWritten history) Register.merge (merge-IsWritten history) s r h hs
