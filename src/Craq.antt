-- ===== src/Craq.antt =====
-- artillery-ddata/src/craq: chain replication with apportioned queries. Writes go from the head of a
-- chain of nodes to its tail; any node may answer reads.
pub mod Chain
pub mod Server
pub mod Startup
pub mod Replication
pub mod Client
pub mod Register
pub mod Interleaving
