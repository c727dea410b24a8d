-- ===== src/Odbc.antt =====
-- odbc/odbc.go.
pub mod Statements
pub mod Client
pub mod KeepAlive
pub mod Build
pub mod Username
