-- ===== src/Tests.antt =====
-- The theorems of the other modules applied at concrete inputs, and runs of the definitions.
mod Protocol
mod Executor
mod State
mod Order
