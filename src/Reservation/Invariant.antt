-- ===== src/Reservation/Invariant.antt =====
-- The invariant of backend/src/cart/cart-reservation.service.ts: what the ACTIVE reservations hold
-- is reserved in the warehouse rows.
mod Held
pub mod Transitions
pub mod Creation
pub mod Expiry
pub use Held.*
