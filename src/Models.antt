-- ===== src/Models.antt =====
-- The tables (app/models).
pub mod User
pub mod Restaurant
pub mod Reservation
pub mod Order
