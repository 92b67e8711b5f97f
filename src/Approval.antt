-- ===== src/Approval.antt =====
-- The approvals of backend/app/services.py: how a person's decision on a plan is written, with the
-- records of plans and operations that follow it, and the audit.
mod Records
mod Decision
pub mod Final
mod Rows
mod Updates
pub mod Recorded
mod Examples
unfoldable pub use Records.*
unfoldable pub use Decision.*
