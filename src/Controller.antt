-- ===== src/Controller.antt =====
-- The reconciler of internal/controller/resourcequota_controller.go, from the decision to the calls
-- that it makes: what it reads and writes outside is behind the interface Controller.Outside.
pub mod Effects
pub mod Outside
pub mod Observer
pub mod Events
pub mod Deficits
pub mod Active
pub mod Proposal
pub mod Dispatch
pub mod OnGithub
pub mod Metrics
pub mod Reconcile
mod Examples
