-- ===== src/Tests.antt =====
-- Concrete inputs, and runs of the program on them.
pub mod Data
pub mod Schedule
pub mod Bundle
pub mod Tables
mod Reconcile
mod Applying
mod Routing
mod Monitoring
mod Nodes
pub mod Iptables
pub mod Chains
mod Ports
pub mod Serving
mod Pulling
