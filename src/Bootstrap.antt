-- ===== src/Bootstrap.antt =====
-- The machine endpoint of apps/control-plane/src/server: vault/bootstrap-auth.ts and
-- bootstrap/upgrade.ts.
pub mod Auth
pub mod Upgrade
mod Tests
