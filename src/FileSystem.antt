-- ===== src/FileSystem.antt =====
-- Files behind the path policy: the adapter that reads them, the movers and the quarantine.
mod Adapter
mod Mover
pub mod Granted
pub mod Moves
mod Quarantine
pub mod QuarantinePath
pub mod Roots
pub mod Isolation
pub mod Leaving
pub mod Restoration
mod Examples
mod QuarantineExamples
unfoldable pub use Adapter.*
unfoldable pub use Mover.*
unfoldable pub use Quarantine.*
