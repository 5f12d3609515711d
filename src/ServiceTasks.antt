-- ===== src/ServiceTasks.antt =====
-- Service tasks and their connectors: src/m8flow_core/services/service_tasks.py. A connector is the
-- host's; descriptions and metadata, which nothing reads, are left out.
pub mod OperationIds
pub mod Registry
pub mod Proxy
