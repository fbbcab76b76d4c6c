-- ===== src/Events.antt =====
-- internal/events/events.go: the dispatcher.
pub mod Sender
pub mod Dispatch
pub mod Retry
