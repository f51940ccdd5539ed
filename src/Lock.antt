-- ===== src/Lock.antt =====
-- internal/lock: the state that the controller keeps for each quota on a Lease.
pub mod State
pub mod Collector
pub mod Store
mod Examples
