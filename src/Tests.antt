-- ===== src/Tests.antt =====
-- Runs of the model, after the tests of the repository, and instances of the theorems.
pub mod Buffers
pub mod Sizes
pub mod Requests
pub mod Dirs
pub mod Dirty
pub mod Reads
pub mod Changes
pub mod Reader
pub mod Queued
pub mod Failures
pub mod Copying
pub mod Loads
pub mod Flushes
pub mod Uploads
pub mod Cutting
pub mod Owning
pub mod Copied
pub mod Expiring
pub mod Retried
pub mod Sound
