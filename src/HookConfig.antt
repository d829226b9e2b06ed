-- ===== src/HookConfig.antt =====
-- The Codex hooks file (notifications/internal/hookconfig/hooks.go).
pub mod Document
pub mod Installation
pub mod Groups
pub mod Removal
pub mod File
