-- ===== src/Tests.antt =====
-- Runs on small databases: each property that has conditions, at an input that meets them.
pub mod Samples
pub mod Evaluated
mod Jobs
mod Access
mod Instances
mod Items
mod Lanes
mod Workflow
mod Hosts
mod Connectors
