-- ===== src/Protocol.antt =====
-- engine/protocol: the plan format, its state machines, its naming rules and its decision tables.
pub mod Errors
pub mod NodeKind
pub mod NodeState
pub mod Quote
pub mod ObjectName
pub mod Naming
pub mod Leftover
pub mod Marker
pub mod Drop
pub mod Params
pub mod Authorization
pub mod Node
pub mod Plan
