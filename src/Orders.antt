-- ===== src/Orders.antt =====
-- backend/src/orders/orders.service.ts after an order is placed, and the parts of
-- backend/src/wallet/wallet.service.ts that settle its payment.
pub mod Tables
pub mod Writes
pub mod Pricing
pub mod Placement
pub mod Lifecycle
pub mod Lines
pub mod Settlement
mod Tests
