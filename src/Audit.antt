-- ===== src/Audit.antt =====
-- pantry/audit: events, queries and the memory store (audit.go, store.go), and the logger.
pub mod Events
pub mod Store
pub mod Logger
mod Examples
