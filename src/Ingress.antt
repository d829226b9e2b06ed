-- ===== src/Ingress.antt =====
-- What reaches the daemon: the Codex hook's input, and the connections to the local socket
-- (notifications/internal/agent/hook.go and daemon.go).
pub mod Hook
pub mod Connection
pub mod Safety
pub mod Ipc
