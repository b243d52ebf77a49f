-- ===== src/Reservation.antt =====
-- backend/src/cart/cart-reservation.service.ts. The database part of its state is the stock tables
-- and the reservations, with their items inside them; the gates of Redis stand beside it, since no
-- transaction rolls them back.
mod Tables
pub mod Release
pub mod Create
pub mod Checkout
pub mod Invariant
mod Tests
pub use Tables.*
