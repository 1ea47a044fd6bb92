-- ===== src/Orders.antt =====
-- Orders across both databases (app/services/orders.py, app/routers/orders.py).
pub mod Money
pub mod Catalogue
pub mod Status
pub mod Listing
pub mod Routes
pub mod Placing
pub mod Receipt
pub mod References
pub mod Rounding
pub mod Lifecycle
pub mod Newest
