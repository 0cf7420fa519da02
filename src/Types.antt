-- ===== src/Types.antt =====
-- crates/amk-types: the wire types that the other crates compute with.
pub mod Str
pub mod Ids
pub mod Labels
pub mod ErrorCode
pub mod Envelope
pub mod Event
pub mod ApiKey
pub mod Mail
pub mod Cursor
pub mod Send
