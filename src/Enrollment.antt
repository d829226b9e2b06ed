-- ===== src/Enrollment.antt =====
-- The enrollment of the host with its backend: notifications/internal/agent/enrollment.go.
pub mod Machine
pub mod Identity
pub mod Pacing
