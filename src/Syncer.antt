-- ===== src/Syncer.antt =====
-- internal/syncer: the sync of mail accounts.
pub mod Scope
pub mod Account
pub mod Wakes
pub mod Subscriptions
pub mod Notifications
