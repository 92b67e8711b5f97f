-- ===== src/Document.antt =====
-- backend/app/document_contracts.py, the part for chunking, and backend/app/document_chunker.py: a
-- document with its pages and positions, and its partition into chunks. `uuid5` is a parameter.
mod Contracts
mod Lines
mod Chunker
pub mod Slices
pub mod Pages
pub mod Segments
pub mod Packing
pub mod Chunks
pub mod SourcePath
pub mod Examples
unfoldable pub use Contracts.*
unfoldable pub use Lines.*
unfoldable pub use Chunker.*
