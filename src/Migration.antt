-- ===== src/Migration.antt =====
-- app/migration.py: the phase of the guest_name migration, the columns that it writes and reads, the
-- state of the schema, and which phases that state allows.
pub mod Phase
pub mod Schema
pub mod Fit
pub mod Revisions
pub mod Gate
