-- ===== src/Tests.antt =====
-- A small cluster, and runs of the code on it.
pub mod Samples
pub mod Cluster
pub mod Control
mod Grants
mod Users
mod Nodes
mod Reports
mod Joining
mod Local
