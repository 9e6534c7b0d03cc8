-- ===== src/Tests.antt =====
-- Runs at concrete inputs, and the main theorems applied to them.
mod Paths
mod Sessions
mod Hosts
mod Types
mod Anchors
mod Records
mod Failures
mod Logs
mod Walks
mod Buses
mod Stores
mod Ports
mod Verifies
