-- ===== src/Config.antt =====
-- The agent's configuration (notifications/internal/agent/config.go) and the notification endpoint it
-- names (parseNotificationEndpoint in register.go).
pub mod Endpoint
pub mod Settings
pub mod Files
pub mod Uuid
pub mod Paths
pub mod Registration
