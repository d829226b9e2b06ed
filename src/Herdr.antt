-- ===== src/Herdr.antt =====
-- The Herdr side of the agent: typed agent state, sockets, bindings, and the reconciliation of
-- observed state with the queue (notifications/internal/agent/herdr_*.go).
pub mod Agent
pub mod Version
pub mod Socket
pub mod Bindings
pub mod Reconcile
pub mod Decision
pub mod Panes
pub mod Snapshot
pub mod Reply
pub mod Watch
pub mod Plugin
pub mod Command
pub mod Setup
pub mod Histories
