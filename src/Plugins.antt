-- ===== src/Plugins.antt =====
-- packages/sdk/src/runtime: what decides which plugins the kernel takes and what they may do.
pub mod Semver
pub mod Scopes
pub mod Strategies
mod Tests
