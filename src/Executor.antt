-- ===== src/Executor.antt =====
-- engine/executor: the loop that takes the nodes of a plan through their states against the ports.
pub mod Classify
pub mod Port
pub mod Backoff
pub mod Machine
pub mod Authorize
pub mod Dispatch
pub mod Attempt
pub mod Run
pub mod Hoare
pub mod Safety
pub mod Fuel
