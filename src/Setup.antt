-- ===== src/Setup.antt =====
-- Runtime library setup (bindings/rust/src/setup.rs) and the statics of the process.
pub mod Target
pub mod Archive
pub mod Copies
pub mod Releases
pub mod Install
