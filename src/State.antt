-- ===== src/State.antt =====
-- engine/state: the records that a run leaves, their checks, and the store that keeps them in files.
pub mod Run
pub mod Node
pub mod Lease
pub mod Lock
pub mod Authorization
pub mod Audit
pub mod Disk
pub mod File
pub mod Claim
pub mod Orphan
pub mod Evolution
pub mod Refusals
