-- ===== src/Chatsync.antt =====
-- internal/chatsync: the runtime that keeps one live connection per chat account.
pub mod Sink
pub mod Backoff
pub mod Actor
pub mod Runtime
