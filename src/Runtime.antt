-- ===== src/Runtime.antt =====
-- cmd/montray-ui/src/runtime.rs: the event pump that owns the reducer, and the lines that it logs.
pub mod Log
pub mod Snoozes
pub mod Pump
