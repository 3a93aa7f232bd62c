-- ===== src/Examples.antt =====
-- The theorems at concrete objects: an app "web" with two replicas, its pods, a cluster that accepts
-- every call, and in-place operations that do nothing.
pub mod Data
pub mod Codec
pub mod Cluster
pub mod Parts
pub mod Passes
pub mod Scheduling
pub mod Syncs
pub mod Reconciles
pub mod Updates
pub mod Images
