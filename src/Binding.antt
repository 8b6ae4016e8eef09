-- ===== src/Binding.antt =====
-- Durable address reservations: internal/binding.
pub mod Leases
pub mod Allocator
pub mod Probe
pub mod Totality
pub mod Overlay
pub mod Ownership
