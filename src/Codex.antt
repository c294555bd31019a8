-- ===== src/Codex.antt =====
-- The Codex App Server adapter, packages/adapter-codex/src: the framing of its byte streams and the
-- state of one connection.
pub mod Framing
pub mod Records
pub mod Connection
