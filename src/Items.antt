-- ===== src/Items.antt =====
-- The item component below the transports: the repository, the service, and what they promise.
pub mod Repo
pub mod Store
pub mod Refinement
pub mod Contained
pub mod Atomic
pub mod Reads
pub mod Runs
pub mod Kept
pub mod Histories
pub mod Distinct
pub mod Service
