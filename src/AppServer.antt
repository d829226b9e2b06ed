-- ===== src/AppServer.antt =====
-- When the Codex app server is restarted after an update
-- (notifications/internal/appservercontrol).
pub mod Update
pub mod Quoting
pub mod Links
pub mod Service
