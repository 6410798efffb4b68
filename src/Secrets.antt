-- ===== src/Secrets.antt =====
-- Package internal/secrets: the client of AWS Secrets Manager.
pub mod Region
pub mod Json
pub mod Client
