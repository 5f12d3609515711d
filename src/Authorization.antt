-- ===== src/Authorization.antt =====
-- src/m8flow_core/services/authorization.py: the command table, requests and policies, and the
-- rows that grants write.
pub mod Commands
pub mod Policy
pub mod Grants
pub mod Decision
pub mod Rows
pub mod Principals
