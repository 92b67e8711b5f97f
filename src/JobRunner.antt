-- ===== src/JobRunner.antt =====
-- backend/app/job_runner.py: how a runner with a store applies events, and how it takes over the jobs
-- that an earlier process has left.
mod Runner
pub mod Stored
pub mod Finishing
pub mod Applied
pub mod Recovered
mod Examples
unfoldable pub use Runner.*
