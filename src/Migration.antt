-- ===== src/Migration.antt =====
-- packages/shopverse-migrate/src: what turns the export of another platform into ShopVerse's data.
pub mod Csv
pub mod Table
mod Tests
