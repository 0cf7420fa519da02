-- ===== src/Store.antt =====
-- crates/amk-store: persistence.
pub mod Cursors
