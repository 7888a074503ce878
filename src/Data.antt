-- ===== src/Data.antt =====
-- The documents that describe plugins, components and scripts, and the manager that finds them.
pub mod Plugin
pub mod Component
pub mod Script
pub mod Manager
