-- ===== src/Protocol.antt =====
-- The messages of notifications/internal/protocol: presentation text, Herdr metadata, events.
pub mod Text
pub mod Metadata
pub mod Event
