-- ===== src/Retrieval.antt =====
-- backend/app/keyword_retrieval.py: keyword search over a corpus of documents. `str.casefold` is a
-- parameter; the documents of backend/app/keyword_baseline.py are values that have passed their checks.
-- backend/app/retrieval_context.py: the snapshot of what a retrieval has found.
mod Keyword
mod Context
mod Rows
pub mod Snapshot
pub mod SnapshotExamples
pub mod Scan
pub mod Results
pub mod Ranking
pub mod Search
pub mod Examples
unfoldable pub use Keyword.*
unfoldable pub use Context.*
unfoldable pub use Rows.*
