-- ===== src/Config.antt =====
-- internal/app: what the server reads when it starts.
pub mod EnvFile
mod Examples
