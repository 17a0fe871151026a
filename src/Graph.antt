-- ===== src/Graph.antt =====
-- internal/graph/graph.go: the evidence-linked graph and its normal form.
pub mod Types
pub mod Rules
pub mod Normalize
pub mod Checks
pub mod Loops
pub mod EdgeLoop
pub mod Valid
pub mod Canonical
mod Samples
