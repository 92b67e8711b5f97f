-- ===== src/Job.antt =====
-- backend/app/job_system.py: the long-running job, its attempts, their progress, and the ordered
-- events that drive them. Times are instants, identifiers are numbers. The digest of a payload
-- (`hash_job_payload`: JSON and SHA-256) is an argument.
mod Model
mod State
mod Events
pub mod Attempts
pub mod Validity
pub mod Cancel
pub mod Outcome
pub mod Worker
pub mod Changes
pub mod History
pub mod Progress
mod Examples
unfoldable pub use Model.*
unfoldable pub use State.*
unfoldable pub use Events.*
