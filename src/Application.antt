-- ===== src/Application.antt =====
-- The entry points of the library: src/m8flow_core/application.
pub mod Queries
