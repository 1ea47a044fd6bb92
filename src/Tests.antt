-- ===== src/Tests.antt =====
-- The theorems at concrete inputs.
pub mod World
pub mod Reservations
pub mod Workflows
pub mod Accounts
pub mod Progress
pub mod Catalogue
pub mod Renaming
pub mod Whole
pub mod Seeding
pub mod Visits
