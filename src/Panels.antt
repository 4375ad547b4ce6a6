-- ===== src/Panels.antt =====
-- The panels of the renderer that have logic of their own: src/renderer/components.
pub mod Connectivity
