-- ===== src/Migrations.antt =====
-- warehouse/apply_migrations.py: how a migration's SQL is split into statements, and the runs that
-- apply and roll back migrations against the journal. A text is the list of its code points.
pub mod Statements
pub mod Scanning
pub mod Splitting
pub mod Journal
pub mod Objects
pub mod Runs
pub mod Latest
pub mod Applying
pub mod Trying
pub mod Attempt
pub mod Success
pub mod Drift
mod Tests
