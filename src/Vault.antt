-- ===== src/Vault.antt =====
-- apps/control-plane/src/server/vault: what the dashboard's requests run.
pub mod Dotenv
pub mod Keys
pub mod Rotation
mod Tests
