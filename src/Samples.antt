-- ===== src/Samples.antt =====
-- Concrete inputs, and the theorems at them.
mod Cni
mod PortForward
mod Binding
mod Dataplane
mod Scheduling
mod Status
mod Ports
mod Overlay
mod Backends
mod Leases
mod NodeAgent
mod GatewayAgent
