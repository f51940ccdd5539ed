-- ===== src/Sizing.antt =====
-- internal/sizing: the resize decision, from plain values and an explicit clock.
pub mod Names
pub mod Quantize
pub mod Policy
pub mod Overflow
pub mod Window
pub mod Decide
pub mod Deficit
mod Examples
