-- ===== src/Model.antt =====
-- The tables of src/m8flow_core/models/, a child for each group of them.
pub mod Json
pub mod Status
pub mod Event
pub mod Permission
pub mod Tenancy
pub mod Process
pub mod Task
pub mod Scheduler
pub mod Database
