-- ===== src/Chunking.antt =====
-- internal/domain/chunking.go: cutting an extraction into chunks.
pub mod Units
pub mod Pack
pub mod Parts
pub mod Kinds
pub mod Emit
