-- ===== src/Exposure.antt =====
-- internal/exposure/exposure.go: the conservative propositions about credentials, runners and
-- resources that an affected step could reach. Evidence lists are values, so `Analyze` is the
-- model of one call on an input whose evidence slices share no array: the code sorts and compacts a
-- slice in place and appends into the capacity that this frees, and so writes to any other slice on
-- the same array. `Stored` has the slices of permissions and these writes.
pub mod Types
pub mod Permissions
pub mod Stored
pub mod Unshared
pub mod Entries
pub mod Merging
pub mod Refinement
pub mod Facts
pub mod Analyze
pub mod Order
pub mod Reachability
mod Samples
