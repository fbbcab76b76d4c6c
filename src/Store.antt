-- ===== src/Store.antt =====
-- internal/store: the database as one list of rows per table, and the operations of the package.
pub mod Tables
pub mod Chats
pub mod Messages
pub mod Deliveries
pub mod Emails
pub mod OAuth
pub mod Neighbours
pub mod Idempotency
pub mod Developers
pub mod Accounts
