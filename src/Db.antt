-- ===== src/Db.antt =====
-- internal/db and migrations: the tables, and what the statements of internal/db do to them.
pub mod Tables
pub mod Jobs
pub mod Runs
pub mod Outbox
pub mod Integrity
pub mod Keys
pub mod Restart
pub mod Cancelling
pub mod Cleanup
pub mod ApiKeys
