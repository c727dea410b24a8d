-- ===== src/Security.antt =====
-- The checks of package security on statements, names, passwords and session variables.
pub mod Sql
pub mod Password
pub mod Connection
pub mod Session
pub mod Mask
