-- ===== src/Upload.antt =====
-- The uploader of notifications/internal/agent/daemon.go.
pub mod Request
pub mod Loop
