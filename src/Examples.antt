-- ===== src/Examples.antt =====
-- Concrete data, and the theorems of the library at it.
pub mod Data
mod Stores
mod Services
mod Reconciliation
mod Edges
mod Agents
mod Fleet
mod Requests
mod Forwarding
mod Drivers
mod Telemetry
