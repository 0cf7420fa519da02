-- ===== src/Ingest.antt =====
-- crates/amk-ingest: incoming mail, from the bytes of the connection to the stored message.
pub mod Errors
pub mod Wire
pub mod Lookup
pub mod Session
pub mod Serve
pub mod Accept
