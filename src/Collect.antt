-- ===== src/Collect.antt =====
-- internal/collect: collection planning that makes every gap visible.
pub mod Gaps
pub mod Windows
pub mod Covering
mod Samples
pub mod Partition
pub mod Enumerate
pub mod Archive
pub mod Attempts
