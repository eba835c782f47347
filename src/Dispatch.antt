-- ===== src/Dispatch.antt =====
-- crates/queue-runner/src/dispatch.rs and caps.rs: where a build may run, and the choice of an agent
-- that holds a slot for it before it is claimed as running.
pub mod Trust
pub mod Capacity
pub mod Select
pub mod Caps
pub mod Venue
