-- ===== src/Database.antt =====
-- Package internal/database: the clients of the two kinds of database servers.
pub mod Quote
pub mod Password
pub mod Sql
pub mod Connection
pub mod Client
