-- ===== src/Format.antt =====
-- The command `format`: lib/src/format/core/Run.cc. Its children model the arguments, the
-- configuration and the formatting of files.
pub mod Disk
pub mod File
pub mod InPlace
pub mod Chunks
pub mod Config
pub mod Arguments
pub mod Tests
