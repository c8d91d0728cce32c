-- ===== src/Lsp.antt =====
-- The language server: its open files, its messages, its session and its loop (lib/src/lsp).
pub mod Text
pub mod Browser
pub mod Http
pub mod Protocol
pub mod Context
pub mod Server
pub mod Scheduler
pub mod Run
