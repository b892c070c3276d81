-- ===== src/Samples.antt =====
-- Small clusters, member lists and chains, on which the theorems of the other modules are applied.
pub mod Clusters
mod Members
pub mod Nodes
pub mod Chains
pub mod Starts
mod Requests
mod Links
mod Writers
mod Answers
pub mod Drains
mod Gossip
pub mod Seekers
mod Peers
mod Turns
