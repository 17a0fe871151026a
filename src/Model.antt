-- ===== src/Model.antt =====
-- The data model of internal/model: vocabularies, identifiers, coverage and findings.
mod Samples
pub mod States
pub mod Vocabulary
pub mod Texts
pub mod Paths
pub mod Ids
pub mod Identities
pub mod Times
pub mod Coverage
pub mod Hex
pub mod Intervals
pub mod Subjects
pub mod Exposures
pub mod Finding
pub mod Runtime
