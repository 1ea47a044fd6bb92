-- ===== src/Reservations.antt =====
-- Reservations (app/services/reservations.py and app/routers/reservations.py).
pub mod Requests
pub mod Store
pub mod Etag
pub mod Service
pub mod Routes
pub mod Listing
pub mod Inversion
pub mod Cases
pub mod Booking
pub mod Invariant
pub mod Outcomes
pub mod Edits
pub mod Reopening
pub mod Readable
pub mod Newest
pub mod Tags
pub mod Success
pub mod Edited
pub mod Race
pub mod Stored
pub mod Answers
pub mod Changing
pub mod Deleting
pub mod Calendar
