-- ===== src/Main.antt =====
-- The Electron main process: src/main.
pub mod Api
pub mod Updater
pub mod Env
pub mod Sidecar
pub mod Settings
pub mod Audit
pub mod Scan
pub mod Tunnels
