-- ===== src/Cni.antt =====
-- The CNI plugin of internal/cni.
pub mod Types
pub mod Calls
pub mod Plugin
pub mod Removal
