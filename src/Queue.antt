-- ===== src/Queue.antt =====
-- The durable queue of notifications/internal/agent/queue.go, with the tables that OpenQueue creates:
-- each SQL statement is a function on the rows. One connection serves every call, so each call or
-- transaction is atomic.
pub mod Rows
pub mod Bounds
pub mod Identity
pub mod Invariant
pub mod Eviction
pub mod Delivery
pub mod Stranded
pub mod Opening
pub mod Backend
