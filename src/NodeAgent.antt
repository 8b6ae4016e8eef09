-- ===== src/NodeAgent.antt =====
-- The node agent: internal/nodeagent/service.go.
pub mod Types
pub mod Lookup
pub mod Program
pub mod Withdraw
pub mod Groups
pub mod Reconcile
pub mod Authority
pub mod Guard
pub mod Path
pub mod Outcome
pub mod Guarding
pub mod Departure
pub mod Grouping
pub mod Regroup
pub mod Adoption
pub mod Reconciled
pub mod Steps
pub mod Success
pub mod Capability
