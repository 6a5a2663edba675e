-- ===== src/Distributed.antt =====
-- crates/omniagent-distributed: the replicated data types, and the members of a cluster. A node
-- identifier, of 16 bytes, is the number that they write with the first byte highest: its order is
-- that of the bytes.
pub mod Convergence
pub mod Counts
pub mod Clock
pub mod Counter
pub mod Replica
pub mod Register
pub mod Converging
mod Examples
