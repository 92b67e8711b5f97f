-- ===== src/JobStore.antt =====
-- backend/app/job_store.py: jobs and attempts as rows of a database, behind a revision that guards
-- each transition. Payload is the text of a payload, Records the rows, Store the operations, Rows the
-- laws of the queries; the other files prove what the store promises.
mod Payload
mod Records
mod Store
mod Listing
pub mod Reading
pub mod Rows
pub mod Updates
pub mod Saving
pub mod Jobs
pub mod RoundTrip
pub mod Compatible
pub mod Refinement
pub mod Conflicts
pub mod Creation
mod Examples
unfoldable pub use Payload.*
unfoldable pub use Records.*
unfoldable pub use Store.*
unfoldable pub use Listing.*
