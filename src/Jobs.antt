-- ===== src/Jobs.antt =====
-- internal/jobs: the disk-backed store of accepted scans.
pub mod Types
pub mod Budget
pub mod Sanitize
pub mod Reserve
pub mod Read
pub mod Update
pub mod Cases
pub mod Stage
pub mod Invariant
pub mod History
pub mod Capacity
pub mod Orderly
pub mod Tombstone
pub mod Eviction
pub mod Visible
pub mod Keyed
pub mod Examples
