-- ===== src/State/File.antt =====
-- engine/state/file.go, an operation to a definition: runs, nodes, authorizations, leases,
-- cancellation, the trail and the lock files.
pub mod Trail
pub mod Runs
pub mod Nodes
pub mod Authorizations
pub mod Leases
pub mod Cancel
pub mod Locks
