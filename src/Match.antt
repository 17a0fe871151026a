-- ===== src/Match.antt =====
-- internal/match: finding states derived from normalised facts.
pub mod Derive
pub mod Soundness
mod Samples
