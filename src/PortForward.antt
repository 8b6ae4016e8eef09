-- ===== src/PortForward.antt =====
-- Port forwarding: internal/portforward.
pub mod Backend
pub mod Resolver
pub mod Resolution
pub mod Choice
pub mod Selection
pub mod Genuine
pub mod Observed
pub mod Unique
pub mod Intent
pub mod States
pub mod Manager
pub mod Reconcile
pub mod Withdraw
pub mod Frame
pub mod Handoff
pub mod Retirement
pub mod Rules
pub mod Reservations
pub mod Provenance
pub mod Expiry
pub mod Exact
pub mod Lease
