-- ===== src/Security.antt =====
-- The security analysis of the renderer: renderer/utils/scanner, renderer/utils/security and the
-- logic of renderer/components/advanced/SecurityHub.tsx.
pub mod Kube
pub mod Rules
pub mod Engine
pub mod Images
pub mod Unified
pub mod Scope
pub mod Hub
pub mod Download
pub mod Run
