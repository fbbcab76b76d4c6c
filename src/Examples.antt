-- ===== src/Examples.antt =====
-- Concrete runs of the model.
mod Auth
mod Accounts
mod Chat
mod Mail
mod Connection
mod Hooks
mod Sync
mod Runs
mod Api
