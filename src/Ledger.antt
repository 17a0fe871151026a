-- ===== src/Ledger.antt =====
-- internal/ledger/ledger.go: the append-only evidence stream.
pub mod Json
pub mod Writer
pub mod Operations
pub mod Bytes
pub mod Writes
pub mod Steps
pub mod Kept
pub mod Durable
pub mod Synced
pub mod Clean
pub mod Sequence
mod Samples
