-- ===== src/Cluster.antt =====
-- internal/cluster: what a controller and a node say to one another.
pub mod Policy
pub mod Validate
pub mod Deadlines
pub mod Cache
