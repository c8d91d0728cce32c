-- ===== src/Cli.antt =====
-- The library's own life time, its interpreter of commands and the log that they use
-- (lib/src/core/cli).
pub mod Library
pub mod Log
pub mod Interpreter
pub mod LogLevel
pub mod Tests
