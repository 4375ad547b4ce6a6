-- ===== src/Store.antt =====
-- The renderer's Zustand store: src/renderer/store.
pub mod Cluster
pub mod Dashboard
pub mod Exec
pub mod Forwards
pub mod Resources
